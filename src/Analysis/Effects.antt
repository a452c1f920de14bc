-- ===== src/Analysis/Effects.antt =====
-- What a run of internal/analysisjob/manager.go does besides computing: it fails with an error, and
-- it takes gates and gives them back. A computation is the list of these events and its outcome.
use audio_server.Common.{ℕ, Option, none, some, ◌⊎◌, inl, inr, List, [], ◌∷◌, ◌++◌}

pub data Error : Type 0 where
  not_configured no_audio unknown_model no_id not_found : Error
  no_normalizer normalize_failed gate_failed separate_failed no_vocals : Error
  bad_wav diarize_failed encode_failed embed_failed transcribe_failed : Error

pub data GateEvent : Type 0 where
  takes gives : ℕ → GateEvent

abbrev pub Run : Type 0 → Type 0
Run A = List GateEvent × (Error ⊎ A)

abbrev pub ok : {A : Type 0} → A → Run A
ok a = ([], inr a)

abbrev pub fail : {A : Type 0} → Error → Run A
fail e = ([], inl e)

-- An answer, or an error if there is none.
abbrev pub need : {A : Type 0} → Error → Option A → Run A
need e none = fail e
need e (some a) = ok a

infixl 5 ◌>>=◌ ◌>>◌
abbrev pub ◌>>=◌ : {A B : Type 0} → Run A → (A → Run B) → Run B
(l, inl e) >>= k = (l, inl e)
(l, inr a) >>= k = (l ++ (k a).0, (k a).1)

abbrev pub ◌>>◌ : {A B : Type 0} → Run A → Run B → Run B
r >> s = r >>= (λ a. s)

-- What the run gate answers: a release function, none and no error, or an error.
pub data Gate : Type 0 where
  opens opens_for_free refuses : Gate

-- The call of a variable that holds a release function or nil, behind a test for nil.
abbrev pub calls : Option ℕ → List GateEvent
calls none = []
calls (some id) = gives id ∷ []

-- A call, and what follows it in the same function: on an error the function returns and its deferred
-- function finds the variable as it is; otherwise the variable is called and set to nil, which the
-- deferred function finds when the function returns later.
unfoldable pub release_after : {A : Type 0} → Option ℕ → Run A → Run A
release_after release (l, inl e) = (l ++ calls release, inl e)
release_after release (l, inr a) =
    let set_nil = none in (l ++ calls release ++ calls set_nil, inr a)

-- A function whose deferred release runs at its return, with an error or without.
unfoldable pub deferred_after : {A : Type 0} → Option ℕ → Run A → Run A
deferred_after release (l, r) = (l ++ calls release, r)

-- The acquisition of a gate and what follows it.
unfoldable pub acquiring : {A : Type 0} → (Option ℕ → Run A → Run A) → Gate → ℕ → Run A → Run A
acquiring after opens id r = (takes id ∷ (after (some id) r).0, (after (some id) r).1)
acquiring after opens_for_free id r = after none r
acquiring after refuses id r = fail gate_failed

-- A call of the separator or the diarizer, and the loop of transcribeSegments, behind their gate.
unfoldable pub within_gate : {A : Type 0} → Gate → ℕ → Run A → Run A
unfolding acquiring release_after
within_gate = acquiring release_after

unfoldable pub within_function : {A : Type 0} → Gate → ℕ → Run A → Run A
unfolding acquiring deferred_after
within_function = acquiring deferred_after
