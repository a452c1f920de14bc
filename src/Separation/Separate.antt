-- ===== src/Separation/Separate.antt =====
-- separate of internal/separationjob/manager.go.
use audio_server.Common.{
  ℕ, suc, ◌-◌, ◌==◌, ◌&&◌, ◌||◌, not, if◌then◌else◌, is_empty, Bool, true, ◌⊎◌, inl, inr, Option,
  none, some, List, [], ◌∷◌, map, length,
}
use audio_server.Analysis.Merge.{sort}
use audio_server.Separation.Types.{
  Request, Result, Error, unknown_model, no_normalizer, normalize_failed, gate_failed,
  separation_failed, persist_failed, missing_stem, Store, write, Manager, member, Gate, opens,
  opens_for_free, refuses, Env,
}

-- The keys of the map `wanted`.
unfoldable pub distinct : List ℕ → List ℕ
unfolding member
distinct [] = []
distinct (x ∷ xs) = let rest = distinct xs in if member x rest then rest else x ∷ rest

abbrev pub wanted : Env → List ℕ → List ℕ
wanted env stems = distinct (map (λ s. env.to_lower (env.trim_space s)) stems)

abbrev pub is_wanted : Env → List ℕ → ℕ → Bool
is_wanted env want name = is_empty want || member (env.to_lower name) want

abbrev pub cons_stem : ℕ → Error ⊎ List ℕ → Error ⊎ List ℕ
cons_stem name (inl e) = inl e
cons_stem name (inr stems) = inr (name ∷ stems)

-- The loop over the outputs: the stems written, or an error, and the store.
unfoldable pub keep_stems : Env → ℕ → List ℕ → List (ℕ × List ℕ) → Store → (Error ⊎ List ℕ) × Store
unfolding member
keep_stems env id want [] s = (inr [], s)
keep_stems env id want ((name, audio) ∷ outputs) s =
    let skipped = keep_stems env id want outputs s in
    let (kept, s') = keep_stems env id want outputs (write id name audio s) in
    if not (is_wanted env want name)
    then skipped
    else if env.writes name
    then (cons_stem name kept, s')
    else (inl persist_failed, s)

unfoldable pub has_all : List ℕ → List ℕ → Bool
unfolding member
has_all got [] = true
has_all got (w ∷ ws) = member w got && has_all got ws

-- The checks after the loop.
unfoldable pub check_stems : Env → List ℕ → ℕ → (Error ⊎ List ℕ) × Store → (Error ⊎ Result) × Store
unfolding has_all sort
check_stems env want provider (inl e, s) = (inl e, s)
check_stems env want provider (inr stems, s) =
    if not (is_empty want)
      && not (length stems == length want)
      && not (has_all (map env.to_lower stems) want)
    then (inl missing_stem, s)
    else (inr (record { provider_id = provider; stems = sort stems }), s)

-- The call of the separator and what follows.
unfoldable pub split :
    Env → ℕ → Request → Option (ℕ × List (ℕ × List ℕ)) → Store → (Error ⊎ Result) × Store
unfolding keep_stems check_stems distinct
split env id req none s = (inl separation_failed, s)
split env id req (some (provider, outputs)) s =
    check_stems env (wanted env req.stems) provider
      (keep_stems env id (wanted env req.stems) outputs s)

-- With a gate the model is acquired before the split, and released when the function returns.
-- The deferred call of a release function that the gate did not give crashes.
unfoldable pub gated : Env → ℕ → Request → Manager → Gate → (Error ⊎ Result) × Manager
unfolding split
gated env id req m refuses = (inl gate_failed, m)
gated env id req m opens =
    let acquired = suc m.held in
    let (r, s) = split env id req env.separated m.store in
    (r, record m { store = s; held = acquired - 1 })
gated env id req m opens_for_free =
    let (r, s) = split env id req env.separated m.store in
    (r, record m { store = s; crashed = true })

unfoldable pub ungated : Env → ℕ → Request → Manager → (Error ⊎ Result) × Manager
unfolding split
ungated env id req m =
    let (r, s) = split env id req env.separated m.store in (r, record m { store = s })

unfoldable pub separate : Env → ℕ → Request → Manager → (Error ⊎ Result) × Manager
unfolding member gated ungated
separate env id req m =
    if not m.has_normalizer
    then (inl no_normalizer, m)
    else if not (member req.separation_model m.separators)
    then (inl unknown_model, m)
    else if not env.normalizes
    then (inl normalize_failed, m)
    else if m.has_gate
    then gated env id req m env.gate
    else ungated env id req m
