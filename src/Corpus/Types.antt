-- ===== src/Corpus/Types.antt =====
-- The state of internal/sttcorpus/sttcorpus.go. Recordings are numbered where the code makes their
-- ids; the day of a path, and the time of a row, are left out. A float64 that is a quotient is the
-- pair of the numbers that are divided.
use audio_server.Common.{ℕ, ◌==◌, ◌&&◌, Bool, false, Option, List}

pub data FilePath : Type 0 where
  upload : ℕ → FilePath
  session : ℕ → FilePath
  line : ℕ → ℕ → FilePath

abbrev pub path_eq : FilePath → FilePath → Bool
path_eq (upload a) (upload b) = a == b
path_eq (session a) (session b) = a == b
path_eq (line a i) (line b j) = (a == b) && (i == j)
path_eq _ _ = false

pub record Meta : Type 0 where
  pub provider : ℕ
  pub model : ℕ
  pub language : ℕ

-- A row of the manifest: `line_index` is that of a line's clip, whose `offset_s` has the start plus
-- 2^63. The source of a row is the kind of
-- its path.
pub record Entry : Type 0 where
  pub id : FilePath
  pub audio : FilePath
  pub text : List ℕ
  pub duration_s : ℕ × ℕ
  pub sample_rate : ℕ
  pub channels : ℕ
  pub meta : Meta
  pub session_id : Option ℕ
  pub line_index : Option ℕ
  pub offset_s : Option (ℕ × ℕ)
  pub session_audio : Option FilePath

-- The times are int64, kept as the number plus 2^63.
pub record Line : Type 0 where
  pub text : List ℕ
  pub start_ms : ℕ
  pub duration_ms : ℕ

-- The files under the recorder's directory, and the bytes of its manifest.
pub record Recorder : Type 0 where
  pub files : FilePath → Option (List ℕ)
  pub manifest : List ℕ

pub record Session : Type 0 where
  pub meta : Meta
  pub sample_rate : ℕ
  pub pcm : List ℕ

pub data Error : Type 0 where
  bad_upload encode_failed write_failed append_failed : Error

-- Which writes succeed, the JSON that encoding/json makes of a row, whether the write to the manifest
-- succeeds, and how many bytes it has written if not.
pub record Disk : Type 0 where
  pub writes : FilePath → Bool
  pub marshal : Entry → Option (List ℕ)
  pub appends : Bool
  pub written : ℕ
