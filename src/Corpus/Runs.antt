-- ===== src/Corpus/Runs.antt =====
-- Tests of internal/sttcorpus/sttcorpus.go: four samples at 1000 Hz.
use audio_server.Common.{ℕ, ◌+◌, ◌-◌, false, ◌≡◌, refl, true, none, some, arith, List, [], ◌∷◌, map}
use audio_server.Int64.{origin}
use audio_server.Corpus.Types.{session, line, Meta, Line, Recorder, Session, Disk}
use audio_server.Corpus.Record.{byte_offset, window, finish}
use audio_server.Corpus.Rows.{AreAppended, IsRow, rows_of, finish-AreRows}

abbrev about : Meta
about = record { provider = 3; model = 0; language = 0 }

abbrev spoken : Session
spoken = record { meta = about; sample_rate = 1000; pcm = 1 ∷ 0 ∷ 2 ∷ 0 ∷ 3 ∷ 0 ∷ 4 ∷ 0 ∷ [] }

abbrev said : ℕ → ℕ → Line
said start duration = record {
  text = 97 ∷ [];
  start_ms = origin + start;
  duration_ms = origin + duration;
}

abbrev fresh : Recorder
fresh = record { files = λ p. none; manifest = [] }

abbrev good_disk : Disk
good_disk = record {
  writes = λ p. true;
  marshal = λ e. some (123 ∷ e.text);
  appends = true;
  written = 0;
}

-- The disk is full after three bytes of the manifest.
abbrev full_disk : Disk
full_disk = record {
  writes = λ p. true;
  marshal = λ e. some (123 ∷ e.text);
  appends = false;
  written = 3;
}

-- The second line ends after the audio and is left out.
abbrev lines : List Line
lines = said 1 2 ∷ said 3 2 ∷ said 0 1 ∷ []

inner_window : window spoken (said 1 2) ≡ some (2, 6)
unfolding window
inner_window = refl

early_window :
    window spoken (record { text = 97 ∷ []; start_ms = origin - 1; duration_ms = origin + 2 })
    ≡ none
unfolding window
early_window = refl

-- A time whose offset wraps around: 2^63 - 1 milliseconds at 1000 Hz are -1000, that is offset -1.
late_offset : byte_offset (origin + 9223372036854775807) 1000 ≡ origin - 1
unfolding byte_offset
late_offset = refl

session_rows :
    map (λ e. e.audio) (rows_of (finish good_disk spoken 7 [] lines fresh).0)
    ≡ session 7 ∷ line 7 0 ∷ line 7 2 ∷ []
unfolding finish audio_server.Wav.Bytes.samples audio_server.Wav.Encode.encode
session_rows = refl

-- The first line of the JSON, a new line, and the beginning of the second.
torn_manifest : (finish full_disk spoken 7 [] lines fresh).1.manifest ≡ 123 ∷ 10 ∷ 123 ∷ []
unfolding finish audio_server.Wav.Bytes.samples audio_server.Wav.Encode.encode
torn_manifest = refl

finish-AreRows_example :
    AreAppended (IsRow spoken lines) full_disk.marshal [] (finish full_disk spoken 7 [] lines fresh)
finish-AreRows_example =
    finish-AreRows full_disk spoken 7 [] lines
      (
        omega arith,
        (
          omega arith,
          (
            omega arith,
            (omega arith, (omega arith, (omega arith, (omega arith, (omega arith, tt))))),
          ),
        ),
      )
      (omega arith)
      (
        record { after = omega arith; before = omega arith; short = omega arith },
        (
          record { after = omega arith; before = omega arith; short = omega arith },
          (record { after = omega arith; before = omega arith; short = omega arith }, tt),
        ),
      )
      fresh
