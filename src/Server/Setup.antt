-- ===== src/Server/Setup.antt =====
-- New, providerFor and sttProviderFor of internal/server/server.go.
use audio_server.Common.{
  ℕ, ◌==◌, ◌||◌, if◌then◌else◌, is_empty, is_some, Bool, Option, none, some, List, [], ◌∷◌, ◌⊎◌,
  inl, inr, map, ◌^◌, ◌*◌,
}
use audio_server.Segment.Text.{Text}
use audio_server.Server.Text.{text_eq, trim}
use audio_server.Server.Types.{Provider, SttProvider}

-- A Go map from texts, as the list of its entries with the newest first.
abbrev pub Table : Type 0 → Type 0
Table A = List (Text × A)

unfoldable pub lookup : {A : Type 0} → Text → Table A → Option A
lookup key [] = none
lookup key ((k, a) ∷ rest) = let found = lookup key rest in if text_eq k key then some a else found

pub data Rejected : Type 0 where
  nil_provider empty_id : Rejected

-- The loop over the configured providers; a nil one is `none`.
unfoldable pub register : {P : Type 0} → (P → Text) → List (Option P) → Table P → Rejected ⊎ Table P
unfolding trim
register id_of [] table = inr table
register id_of (none ∷ ps) table = inl nil_provider
register id_of (some p ∷ ps) table =
    let rest = register id_of ps ((trim (id_of p), p) ∷ table) in
    if is_empty (trim (id_of p)) then inl empty_id else rest

-- The fields of Config that New reads. A number that is not positive is 0.
pub record Config : Type 0 where
  pub providers : List (Option Provider)
  pub default_provider : Text
  pub api_key : Text
  pub max_input_chars : ℕ
  pub has_queue : Bool
  pub stream_workers : Text → ℕ
  pub stt_providers : List (Option SttProvider)
  pub default_stt_provider : Text
  pub max_upload_bytes : ℕ
  pub analysis_max_upload_bytes : ℕ

pub record Server : Type 0 where
  pub providers : Table Provider
  pub default_provider : Text
  pub api_key : Text
  pub max_input_chars : ℕ
  -- the capacities of the semaphores
  pub stream_sem : Table ℕ
  pub stt_providers : Table SttProvider
  pub default_stt_provider : Text
  pub max_upload_bytes : ℕ
  pub analysis_max_upload_bytes : ℕ

pub data SetupError : Type 0 where
  no_providers no_queue : SetupError
  provider_error stt_provider_error : Rejected → SetupError
  unknown_default unknown_stt_default : Text → SetupError

abbrev pub or_number : ℕ → ℕ → ℕ
or_number default n = if n == 0 then default else n

abbrev pub workers_of : (Text → ℕ) → Text × Provider → Text × ℕ
workers_of workers entry = (entry.0, or_number 1 (workers entry.0))

-- The id of the first provider as it stands, or nothing where there is none.
abbrev pub first_id : {P : Type 0} → (P → Text) → List (Option P) → Text
first_id id_of [] = []
first_id id_of (none ∷ ps) = []
first_id id_of (some p ∷ ps) = id_of p

unfoldable pub default_of : {P : Type 0} → (P → Text) → Text → List (Option P) → Text
unfolding trim
default_of id_of name ps = if is_empty (trim name) then first_id id_of ps else trim name

abbrev pub default_id : Config → Text
default_id cfg = default_of (λ p. p.id) cfg.default_provider cfg.providers

abbrev pub default_stt_id : Config → Text
default_stt_id cfg = default_of (λ p. p.id) cfg.default_stt_provider cfg.stt_providers

-- The server that New returns.
unfoldable pub assemble : Config → Table Provider → Table SttProvider → Server
assemble cfg table stt_table = record {
  providers = table;
  default_provider = default_id cfg;
  api_key = cfg.api_key;
  max_input_chars = or_number 5000 cfg.max_input_chars;
  stream_sem = map (workers_of cfg.stream_workers) table;
  stt_providers = stt_table;
  default_stt_provider = default_stt_id cfg;
  max_upload_bytes = or_number (25 * 2 ^ 20) cfg.max_upload_bytes;
  analysis_max_upload_bytes = or_number (2 * 2 ^ 30) cfg.analysis_max_upload_bytes;
}

unfoldable pub with_stt :
    Config → Table Provider → Rejected ⊎ Table SttProvider → SetupError ⊎ Server
unfolding assemble lookup
with_stt cfg table (inl e) = inl (stt_provider_error e)
with_stt cfg table (inr stt_table) =
    if is_empty (default_stt_id cfg) || is_some (lookup (default_stt_id cfg) stt_table)
    then inr (assemble cfg table stt_table)
    else inl (unknown_stt_default (default_stt_id cfg))

unfoldable pub with_providers : Config → Rejected ⊎ Table Provider → SetupError ⊎ Server
unfolding lookup register with_stt
with_providers cfg (inl e) = inl (provider_error e)
with_providers cfg (inr table) =
    if is_some (lookup (default_id cfg) table)
    then with_stt cfg table (register (λ p. p.id) cfg.stt_providers [])
    else inl (unknown_default (default_id cfg))

unfoldable pub new : Config → SetupError ⊎ Server
unfolding register with_providers
new cfg =
    if is_empty cfg.providers
    then inl no_providers
    else if cfg.has_queue
    then with_providers cfg (register (λ p. p.id) cfg.providers [])
    else inl no_queue
