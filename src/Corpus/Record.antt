-- ===== src/Corpus/Record.antt =====
-- RecordUpload, NewSession, Append, Bytes and Finish of internal/sttcorpus/sttcorpus.go.
use audio_server.Common.{
  ℕ, suc, ◌+◌, ◌-◌, ◌/◌, ◌==◌, ltb, leb, ◌||◌, if◌then◌else◌, is_empty, Option, none, some, ◌⊎◌,
  inl, inr, List, [], ◌∷◌, ◌++◌, take, drop, length,
}
use audio_server.Wav.Bytes.{samples}
use audio_server.Wav.Parse.{Audio, parse}
use audio_server.Wav.Encode.{encode}
use audio_server.Int64.{origin, times, plus, quotient}
use audio_server.Corpus.Types.{
  FilePath, upload, session, line, path_eq, Meta, Entry, Line, Recorder, Session, Error, bad_upload,
  encode_failed, write_failed, append_failed, Disk,
}

unfoldable pub new_session : ℕ → Meta → Session
new_session sample_rate meta = record { meta = meta; sample_rate = sample_rate; pcm = [] }

-- Append, where an empty frame changes nothing, and Bytes.
unfoldable pub feed : List ℕ → Session → Session
feed pcm s = record s { pcm = s.pcm ++ pcm }

abbrev pub bytes : Session → ℕ
bytes s = length s.pcm

-- writeFile: a file that is written under another name and renamed is there whole or not at all.
abbrev pub put_file : FilePath → List ℕ → Recorder → Recorder
put_file p content r = record r { files = λ q. if path_eq p q then some content else r.files q }

-- The bytes of pairs; a last byte alone is left out.
unfoldable pub encode_pcm : List ℕ → ℕ → Option (List ℕ)
unfolding samples encode
encode_pcm pcm sample_rate = encode (record { sample_rate = sample_rate; samples = samples pcm })

-- The byte offset of a time, or -1, as an int plus 2^63.
unfoldable pub byte_offset : ℕ → ℕ → ℕ
unfolding times quotient
byte_offset ms sample_rate =
    let offset = times (quotient (times ms sample_rate) 1000) 2 in
    if ltb offset origin then origin - 1 else offset

-- A window of the audio that is not empty and within it.
unfoldable pub window_of : ℕ → ℕ → ℕ → Option (ℕ × ℕ)
window_of size start end =
    if ltb start origin || ltb (origin + size) end || leb end start
    then none
    else some (start - origin, end - origin)

unfoldable pub window : Session → Line → Option (ℕ × ℕ)
unfolding byte_offset window_of plus
window s l =
    if is_empty l.text || leb l.duration_ms origin
    then none
    else window_of (length s.pcm) (byte_offset l.start_ms s.sample_rate)
        (byte_offset (plus l.start_ms l.duration_ms) s.sample_rate)

abbrev pub slice : Session → ℕ × ℕ → List ℕ
slice s (start, end) = take (end - start) (drop start s.pcm)

abbrev pub line_entry : Session → ℕ → ℕ → Line → Entry
line_entry s id i l = record {
  id = line id i;
  audio = line id i;
  text = l.text;
  duration_s = (l.duration_ms - origin, 1000);
  sample_rate = s.sample_rate;
  channels = 1;
  meta = s.meta;
  session_id = some id;
  line_index = some i;
  offset_s = some (l.start_ms, 1000);
  session_audio = some (session id);
}

-- A seconds count of 0 where the rate is 0.
abbrev pub duration : ℕ → ℕ → ℕ × ℕ
duration count sample_rate = if sample_rate == 0 then (0, 1) else (count, sample_rate)

abbrev pub session_entry : Session → ℕ → List ℕ → Entry
session_entry s id text = record {
  id = session id;
  audio = session id;
  text = text;
  duration_s = duration (length s.pcm / 2) s.sample_rate;
  sample_rate = s.sample_rate;
  channels = 1;
  meta = s.meta;
  session_id = some id;
  line_index = none;
  offset_s = none;
  session_audio = none;
}

-- An encoded clip is written, or an error is returned.
unfoldable pub write_clip : Disk → FilePath → Option (List ℕ) → Recorder → (Error ⊎ ℕ) × Recorder
write_clip disk p none r = (inl encode_failed, r)
write_clip disk p (some wav) r =
    if disk.writes p then (inr (length wav), put_file p wav r) else (inl write_failed, r)

abbrev pub add_row : Entry → (Error ⊎ List Entry) × Recorder → (Error ⊎ List Entry) × Recorder
add_row row (inl e, r) = (inl e, r)
add_row row (inr rows, r) = (inr (row ∷ rows), r)

abbrev pub then_rows :
    (Error ⊎ ℕ) × Recorder
    → Entry
    → (Recorder → (Error ⊎ List Entry) × Recorder)
    → (Error ⊎ List Entry) × Recorder
then_rows (inl e, r) row k = (inl e, r)
then_rows (inr n, r) row k = add_row row (k r)

-- One line, by its window, and the rest of the loop.
unfoldable pub add_line :
    Disk
    → Session
    → ℕ
    → ℕ
    → Line
    → Option (ℕ × ℕ)
    → (Recorder → (Error ⊎ List Entry) × Recorder)
    → Recorder
    → (Error ⊎ List Entry) × Recorder
unfolding write_clip encode_pcm
add_line disk s id i l none k r = k r
add_line disk s id i l (some w) k r =
    then_rows (write_clip disk (line id i) (encode_pcm (slice s w) s.sample_rate) r)
      (line_entry s id i l) k

-- The loop over the lines: the rows of the clips.
unfoldable pub finish_lines :
    Disk → Session → ℕ → ℕ → List Line → Recorder → (Error ⊎ List Entry) × Recorder
unfolding window add_line
finish_lines disk s id i [] r = (inr [], r)
finish_lines disk s id i (l ∷ ls) r =
    add_line disk s id i l (window s l) (finish_lines disk s id (suc i) ls) r

-- Each row is a line of its JSON.
abbrev joined : Option (List ℕ) → Option (List ℕ) → Option (List ℕ)
joined none rest = none
joined (some json) none = none
joined (some json) (some rest) = some (json ++ 10 ∷ rest)

unfoldable pub lines_of : (Entry → Option (List ℕ)) → List Entry → Option (List ℕ)
lines_of marshal [] = some []
lines_of marshal (row ∷ rows) = joined (marshal row) (lines_of marshal rows)

-- The lines are appended in one write, which may fail after a part of them.
unfoldable pub append_lines :
    Disk → List Entry → Option (List ℕ) → Recorder → (Error ⊎ List Entry) × Recorder
append_lines disk rows none r = (inl append_failed, r)
append_lines disk rows (some buf) r =
    if disk.appends
    then (inr rows, record r { manifest = r.manifest ++ buf })
    else (inl append_failed, record r { manifest = r.manifest ++ take disk.written buf })

unfoldable pub append_rows :
    Disk → (Error ⊎ List Entry) × Recorder → (Error ⊎ List Entry) × Recorder
unfolding lines_of append_lines
append_rows disk (inl e, r) = (inl e, r)
append_rows disk (inr rows, r) =
    if is_empty rows then (inr rows, r) else append_lines disk rows (lines_of disk.marshal rows) r

unfoldable pub finish :
    Disk → Session → ℕ → List ℕ → List Line → Recorder → (Error ⊎ List Entry) × Recorder
unfolding write_clip encode_pcm finish_lines append_rows
finish disk s id text lines r =
    if is_empty s.pcm
    then (inr [], r)
    else append_rows disk (
        then_rows (write_clip disk (session id) (encode_pcm s.pcm s.sample_rate) r)
          (session_entry s id text) (finish_lines disk s id 0 lines))

abbrev pub upload_entry : ℕ → List ℕ → Meta → Audio → Entry
upload_entry id text meta audio = record {
  id = upload id;
  audio = upload id;
  text = text;
  duration_s = duration (length audio.samples) audio.sample_rate;
  sample_rate = audio.sample_rate;
  channels = 1;
  meta = meta;
  session_id = none;
  line_index = none;
  offset_s = none;
  session_audio = none;
}

unfoldable pub record_parsed :
    {E : Type 0}
    → Disk
    → ℕ
    → List ℕ
    → List ℕ
    → Meta
    → E ⊎ Audio
    → Recorder
    → (Error ⊎ List Entry) × Recorder
unfolding write_clip append_rows
record_parsed disk id wav text meta (inl e) r = (inl bad_upload, r)
record_parsed disk id wav text meta (inr audio) r = append_rows disk (
    then_rows (write_clip disk (upload id) (some wav) r) (upload_entry id text meta audio)
      (λ r'. (inr [], r')))

unfoldable pub record_upload :
    Disk → ℕ → List ℕ → List ℕ → Meta → Recorder → (Error ⊎ List Entry) × Recorder
unfolding parse record_parsed
record_upload disk id wav text meta r = record_parsed disk id wav text meta (parse wav) r
