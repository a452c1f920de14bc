-- ===== src/Separation/Types.antt =====
-- The state of internal/separationjob/manager.go. Strings are numbered in their order; 0 is the
-- empty one. Job ids have one length, so the key of a stem is the pair of the id and the stem.
-- The times of a job and the file name of a request are only passed on.
use audio_server.Common.{
  ℕ, ◌==◌, ◌&&◌, ◌||◌, if◌then◌else◌, Bool, false, Option, some, List, [], ◌∷◌,
}

pub data Status : Type 0 where
  queued running succeeded failed : Status

pub record Request : Type 0 where
  pub audio : List ℕ
  pub separation_model : ℕ
  pub stems : List ℕ

pub record Result : Type 0 where
  pub provider_id : ℕ
  pub stems : List ℕ

pub data Error : Type 0 where
  not_configured no_audio unknown_model no_id no_normalizer normalize_failed gate_failed : Error
  separation_failed persist_failed missing_stem not_found not_finished no_stem read_failed : Error

pub record Job : Type 0 where
  pub status : Status
  pub result : Result
  pub error : Option Error

abbrev pub no_result : Result
no_result = record { provider_id = 0; stems = [] }

-- A store of audio by id and stem: StemStore, as internal/store/store.go implements it. Its files
-- expire outside of the manager.
abbrev pub Store : Type 0
Store = ℕ → ℕ → Option (List ℕ)

abbrev pub write : ℕ → ℕ → List ℕ → Store → Store
write id stem audio s i n = if (i == id) && (n == stem) then some audio else s i n

-- `held` counts the gates that were acquired and not released; `crashed` says that a goroutine has
-- called a nil function, which ends the process.
pub record Manager : Type 0 where
  pub jobs : ℕ → Option Job
  pub separators : List ℕ
  pub default_separator : ℕ
  pub has_normalizer : Bool
  pub has_gate : Bool
  pub has_store : Bool
  pub store : Store
  pub held : ℕ
  pub crashed : Bool

unfoldable pub member : ℕ → List ℕ → Bool
member x [] = false
member x (y ∷ ys) = (x == y) || member x ys

-- What the gate answers: a release function, none of either, or an error.
pub data Gate : Type 0 where
  opens opens_for_free refuses : Gate

-- What strings.ToLower and strings.TrimSpace compute, and what the calls out of a run answer:
-- normalization, the gate, the separator with its outputs in the order of the range over them,
-- and the writes.
pub record Env : Type 0 where
  pub to_lower : ℕ → ℕ
  pub trim_space : ℕ → ℕ
  pub normalizes : Bool
  pub gate : Gate
  pub separated : Option (ℕ × List (ℕ × List ℕ))
  pub writes : ℕ → Bool
