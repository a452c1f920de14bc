-- ===== src/Corpus/Rows.antt =====
-- The manifest of internal/sttcorpus/sttcorpus.go after Finish.
use audio_server.Common.{
  ℕ, suc, ◌<◌, ◌≡◌, arith, inl, inr, refl, sym, ap, ◌∙◌, subst, if_both, is_empty, Option, none,
  some, ◌⊎◌, List, [], ◌∷◌, ◌++◌, append-nil, All, length, take, get_elem?, Bool-cases,
}
use audio_server.Wav.Bytes.{samples}
use audio_server.Wav.Parse.{parse}
use audio_server.Corpus.Types.{
  FilePath, session, line, Entry, Line, Recorder, Session, Error, write_failed, append_failed, Disk,
}
use audio_server.Corpus.Record.{
  encode_pcm, window, slice, line_entry, session_entry, put_file, write_clip, add_row, then_rows,
  add_line, finish_lines, lines_of, append_lines, append_rows, finish,
}
use audio_server.Corpus.Files.{path_eq_refl, finish_lines-before}
use audio_server.Corpus.Windows.{IsTimed, IsCut, window-IsCut, get_elem?-All}
use audio_server.Corpus.Kept.{
  Files, HasAudio, AreBytes, parse-encode_pcm, IsClip, AreClips, finish_lines-AreClips,
}

abbrev Outcome : Type 0
Outcome = (Error ⊎ List Entry) × Recorder

write_clip-manifest :
    (disk : Disk) (p : FilePath) (o : Option (List ℕ)) (r : Recorder)
    → (write_clip disk p o r).1.manifest ≡ r.manifest
unfolding write_clip
write_clip-manifest disk p none r = refl
write_clip-manifest disk p (some wav) r =
    if_both (λ (x : (Error ⊎ ℕ) × Recorder). x.1.manifest ≡ r.manifest) (disk.writes p)
      (inr (length wav), put_file p wav r) (inl write_failed, r) refl refl

add_row-recorder : (row : Entry) (x : Outcome) → (add_row row x).1 ≡ x.1
add_row-recorder row (inl e, r) = refl
add_row-recorder row (inr rows, r) = refl

then_rows-manifest :
    (x : (Error ⊎ ℕ) × Recorder) (row : Entry) (k : Recorder → Outcome)
    → ((r : Recorder) → (k r).1.manifest ≡ r.manifest)
    → (then_rows x row k).1.manifest ≡ x.1.manifest
then_rows-manifest (inl e, r) row k h = refl
then_rows-manifest (inr n, r) row k h =
    ap (λ (x : Recorder). x.manifest) (add_row-recorder row (k r)) ∙ h r

add_line-manifest :
    (disk : Disk) (s : Session) (id i : ℕ) (l : Line) (w : Option (ℕ × ℕ)) (k : Recorder → Outcome)
    (r : Recorder)
    → ((r : Recorder) → (k r).1.manifest ≡ r.manifest)
    → (add_line disk s id i l w k r).1.manifest ≡ r.manifest
unfolding add_line
add_line-manifest disk s id i l none k r h = h r
add_line-manifest disk s id i l (some w) k r h =
    then_rows-manifest (write_clip disk (line id i) (encode_pcm (slice s w) s.sample_rate) r)
      (line_entry s id i l) k h
    ∙ write_clip-manifest disk (line id i) (encode_pcm (slice s w) s.sample_rate) r

finish_lines-manifest :
    (disk : Disk) (s : Session) (id i : ℕ) (ls : List Line) (r : Recorder)
    → (finish_lines disk s id i ls r).1.manifest ≡ r.manifest
unfolding finish_lines
finish_lines-manifest disk s id i [] r = refl
finish_lines-manifest disk s id i (l ∷ ls) r =
    add_line-manifest disk s id i l (window s l) (finish_lines disk s id (suc i) ls) r
      (finish_lines-manifest disk s id (suc i) ls)

abbrev pub rows_of : Error ⊎ List Entry → List Entry
rows_of (inl e) = []
rows_of (inr rows) = rows

-- Rows that all have a property of the files.
abbrev Have : (Files → Entry → Type 0) → Outcome → Type 0
Have P x = All (P x.1.files) (rows_of x.0)

-- What an outcome says about the manifest, which was `old`: with rows, these are its new lines; with an
-- error, the new bytes are the beginning of the lines of some rows. The rows have a property of the
-- files in both cases.
abbrev pub AreAppended :
    (Files → Entry → Type 0) → (Entry → Option (List ℕ)) → List ℕ → Outcome → Type 0
AreAppended P marshal old (inr rows, r) =
    (buf : List ℕ) × (lines_of marshal rows ≡ some buf)
    × (r.manifest ≡ old ++ buf)
    × All (P r.files) rows
AreAppended P marshal old (inl e, r) =
    (rows : List Entry) × (buf : List ℕ) × (k : ℕ) × (lines_of marshal rows ≡ some buf)
    × (r.manifest ≡ old ++ take k buf)
    × All (P r.files) rows

nothing-AreAppended :
    (P : Files → Entry → Type 0) (disk : Disk) (e : Error) (r : Recorder)
    → AreAppended P disk.marshal r.manifest (inl e, r)
unfolding lines_of
nothing-AreAppended P disk e r = ([], [], 0, refl, sym (append-nil r.manifest), tt)

append_lines-AreAppended :
    (P : Files → Entry → Type 0) (disk : Disk) (rows : List Entry) (o : Option (List ℕ))
    (r : Recorder)
    → lines_of disk.marshal rows ≡ o
    → All (P r.files) rows
    → AreAppended P disk.marshal r.manifest (append_lines disk rows o r)
unfolding append_lines
append_lines-AreAppended P disk rows none r e h = nothing-AreAppended P disk append_failed r
append_lines-AreAppended P disk rows (some buf) r e h =
    if_both (AreAppended P disk.marshal r.manifest) disk.appends
      (inr rows, record r { manifest = r.manifest ++ buf })
      (inl append_failed, record r { manifest = r.manifest ++ take disk.written buf })
      (buf, e, refl, h) (rows, buf, disk.written, e, refl, h)

append_rows-AreAppended :
    (P : Files → Entry → Type 0) (disk : Disk) (x : Outcome)
    → Have P x
    → AreAppended P disk.marshal x.1.manifest (append_rows disk x)
unfolding append_rows
append_rows-AreAppended P disk (inl e, r) h = nothing-AreAppended P disk e r
append_rows-AreAppended P disk (inr [], r) h = ([], refl, sym (append-nil r.manifest), tt)
append_rows-AreAppended P disk (inr (row ∷ rows), r) h =
    append_lines-AreAppended P disk (row ∷ rows) (lines_of disk.marshal (row ∷ rows)) r refl h

-- A row of a line's clip: the line's text, and the samples from its start to its end.
pub record IsSaid (s : Session) (lines : List Line) (files : Files) (row : Entry) : Type 0 where
  pub at : ℕ
  pub of : Line
  pub from_to : ℕ × ℕ
  pub index : row.line_index ≡ some at
  pub there : get_elem? lines at ≡ some of
  pub cut : IsCut s of from_to
  pub same_text : row.text ≡ of.text
  pub kept : HasAudio files row.audio s.sample_rate (samples (slice s from_to))

-- A row of the session, with all its audio, or one of a clip.
abbrev pub IsRow : Session → List Line → Files → Entry → Type 0
IsRow s lines files row =
    ((row.line_index ≡ none) × HasAudio files row.audio s.sample_rate (samples s.pcm))
    ⊎ IsSaid s lines files row

clip-IsSaid :
    (s : Session) (lines : List Line) (files : Files) (row : Entry)
    → s.sample_rate < 4294967296
    → All IsTimed lines
    → IsClip s 0 lines files row
    → IsSaid s lines files row
clip-IsSaid s lines files row g t c = record {
  at = c.at;
  of = c.of;
  from_to = c.from_to;
  index = c.index ∙ ap some (omega arith);
  there = c.there;
  cut = window-IsCut s c.of c.from_to g (get_elem?-All IsTimed lines c.at c.of t c.there) c.within;
  same_text = c.same_text;
  kept = c.kept;
}

clip-rows :
    (s : Session) (lines : List Line) (files : Files) (rows : List Entry)
    → s.sample_rate < 4294967296
    → All IsTimed lines
    → All (IsClip s 0 lines files) rows
    → All (IsRow s lines files) rows
clip-rows s lines files [] g t h = tt
clip-rows s lines files (row ∷ rows) g t h =
    (inr (clip-IsSaid s lines files row g t h.0), clip-rows s lines files rows g t h.1)

session-Have :
    (s : Session) (id : ℕ) (text : List ℕ) (lines : List Line) (wav : List ℕ) (x : Outcome)
    → x.1.files (session id) ≡ some wav
    → parse wav ≡ inr (record { sample_rate = s.sample_rate; samples = samples s.pcm })
    → s.sample_rate < 4294967296
    → All IsTimed lines
    → AreClips s 0 lines x
    → Have (IsRow s lines) (add_row (session_entry s id text) x)
session-Have s id text lines wav (inl e, r) f p g t h = tt
session-Have s id text lines wav (inr rows, r) f p g t h =
    (inl (refl, (wav, f, p)), clip-rows s lines r.files rows g t h)

module _ (disk : Disk) (s : Session) (id : ℕ) (text : List ℕ) (lines : List Line)
    (bytes_ok : AreBytes s.pcm) (rate_ok : s.sample_rate < 4294967296)
    (timed : All IsTimed lines) where
  written-Have :
      (o : Option (List ℕ)) (r : Recorder)
      → encode_pcm s.pcm s.sample_rate ≡ o
      → Have (IsRow s lines) (
          then_rows
            (write_clip disk (session id) o r)
            (session_entry s id text)
            (finish_lines disk s id 0 lines))
  unfolding write_clip
  written-Have none r e = tt
  written-Have (some wav) r e = elim (Bool-cases (disk.writes (session id))) [
    | inl ok ↦ rw ok (
        session-Have s id text lines wav
          (finish_lines disk s id 0 lines (put_file (session id) wav r))
          (finish_lines-before disk s id 0 lines (session id) (put_file (session id) wav r)
              (λ j le. refl)
            ∙ rw (path_eq_refl (session id)) refl)
          (parse-encode_pcm s.pcm s.sample_rate wav bytes_ok rate_ok e) rate_ok timed
          (finish_lines-AreClips s bytes_ok rate_ok disk id 0 lines (put_file (session id) wav r)))
    | inr bad ↦ rw bad tt
  ]

  -- For a session of bytes with a rate that fits in its field, and lines within 2^30 milliseconds of
  -- its start: if Finish succeeds, the new bytes of the manifest are the lines of the rows that it
  -- returns, and if it fails, they are the beginning, which may be empty, of the lines of some rows;
  -- and each row names a file that reads as audio of the session's rate with, for the session's row,
  -- all samples, and for the clip of a line, the line's text and the samples from the line's start to
  -- its end, which is inside the audio.
  pub finish-AreRows :
      (r : Recorder)
      → AreAppended (IsRow s lines) disk.marshal r.manifest (finish disk s id text lines r)
  unfolding finish
  finish-AreRows r = elim (Bool-cases (is_empty s.pcm)) [
    | inl h ↦ rw h ([], refl, sym (append-nil r.manifest), tt)
    | inr h ↦ rw h (
        subst (λ old. AreAppended (IsRow s lines) disk.marshal old (append_rows disk rows))
          (then_rows-manifest (write_clip disk (session id) (encode_pcm s.pcm s.sample_rate) r)
              (session_entry s id text) (finish_lines disk s id 0 lines)
              (finish_lines-manifest disk s id 0 lines)
            ∙ write_clip-manifest disk (session id) (encode_pcm s.pcm s.sample_rate) r)
          (append_rows-AreAppended (IsRow s lines) disk rows
            (written-Have (encode_pcm s.pcm s.sample_rate) r refl)))
  ]
    where
      rows : Outcome
      rows =
          then_rows (write_clip disk (session id) (encode_pcm s.pcm s.sample_rate) r)
            (session_entry s id text) (finish_lines disk s id 0 lines)
