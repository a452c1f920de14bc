-- ===== src/Separation/Stems.antt =====
-- The stems of a job of internal/separationjob/manager.go that succeeded can be read.
use audio_server.Common.{
  ℕ, ◌==◌, ◌&&◌, ◌≡◌, ◌⊎◌, inl, inr, refl, sym, ap, subst, ◌∙◌, not, if_both, is_empty, true,
  Option, none, some, arith, List, [], map, length, update, update_self,
}
use audio_server.Separation.Types.{
  succeeded, Request, Result, Error, no_normalizer, unknown_model, normalize_failed, Job, Store,
  Manager, member, Gate, opens, opens_for_free, refuses, Env,
}
use audio_server.Separation.Separate.{
  keep_stems, has_all, wanted, check_stems, split, gated, ungated, separate,
}
use audio_server.Separation.Jobs.{
  started, ended, change_job, get, stem_of, stem, begin, conclude, run_job,
}
use audio_server.Separation.Stored.{IsOutput, Stored, Keeps, keep_stems-Keeps, member-sort}

-- The outputs of the separator.
abbrev pub listed : Option (ℕ × List (ℕ × List ℕ)) → List (ℕ × List ℕ)
listed none = []
listed (some (provider, outputs)) = outputs

-- Each stem of a result is stored.
abbrev IsStored : ℕ → List (ℕ × List ℕ) → (Error ⊎ Result) × Store → Type 0
IsStored id outputs (inl e, s) = Unit
IsStored id outputs (inr r, s) = (name : ℕ) → member name r.stems ≡ true → Stored id name outputs s

check_stems-IsStored :
    (env : Env) (id : ℕ) (want : List ℕ) (provider : ℕ) (outputs : List (ℕ × List ℕ))
    (r : (Error ⊎ List ℕ) × Store)
    → Keeps id outputs r
    → IsStored id outputs (check_stems env want provider r)
unfolding check_stems
check_stems-IsStored env id want provider outputs (inl e, s) k = tt
check_stems-IsStored env id want provider outputs (inr stems, s) k =
    if_both (IsStored id outputs)
      (not (is_empty want)
        && not (length stems == length want)
        && not (has_all (map env.to_lower stems) want))
      _ _ tt (λ name h. k stems refl name (sym (member-sort name stems) ∙ h))

split-IsStored :
    (env : Env) (id : ℕ) (req : Request) (o : Option (ℕ × List (ℕ × List ℕ))) (s : Store)
    → IsStored id (listed o) (split env id req o s)
unfolding split
split-IsStored env id req none s = tt
split-IsStored env id req (some (provider, outputs)) s =
    check_stems-IsStored env id (wanted env req.stems) provider outputs
      (keep_stems env id (wanted env req.stems) outputs s)
      (keep_stems-Keeps env id (wanted env req.stems) outputs s)

-- What holds after separate: the jobs are the same, and the stems of a result are stored.
abbrev IsSeparated : Manager → ℕ → List (ℕ × List ℕ) → (Error ⊎ Result) × Manager → Type 0
IsSeparated m id outputs r = (r.1.jobs ≡ m.jobs) × IsStored id outputs (r.0, r.1.store)

gated-IsSeparated :
    (env : Env) (id : ℕ) (req : Request) (m : Manager) (g : Gate)
    → IsSeparated m id (listed env.separated) (gated env id req m g)
unfolding gated
gated-IsSeparated env id req m refuses = (refl, tt)
gated-IsSeparated env id req m opens = (refl, split-IsStored env id req env.separated m.store)
gated-IsSeparated env id req m opens_for_free =
    (refl, split-IsStored env id req env.separated m.store)

separate-IsSeparated :
    (env : Env) (id : ℕ) (req : Request) (m : Manager)
    → IsSeparated m id (listed env.separated) (separate env id req m)
unfolding separate ungated
separate-IsSeparated env id req m =
    if_both Good (not m.has_normalizer) (inl no_normalizer, m) _ (refl, tt)
      (if_both Good (not (member req.separation_model m.separators)) (inl unknown_model, m) _
        (refl, tt)
        (if_both Good (not env.normalizes) (inl normalize_failed, m) _ (refl, tt)
          (if_both Good m.has_gate (gated env id req m env.gate) (ungated env id req m)
            (gated-IsSeparated env id req m env.gate)
            (refl, split-IsStored env id req env.separated m.store))))
  where
    Good : (Error ⊎ Result) × Manager → Type 0
    Good = IsSeparated m id (listed env.separated)

-- The stems of a job that succeeded can be read.
abbrev IsReadable : ℕ → List (ℕ × List ℕ) → Manager → Type 0
IsReadable id outputs m =
    (job : Job)
    → m.jobs id ≡ some job
    → job.status ≡ succeeded
    → (name : ℕ) → member name job.result.stems ≡ true
    → (audio : List ℕ) × IsOutput name audio outputs × (stem id name m ≡ inr audio)

not_yet :
    (o : Option Job) (job : Job) → change_job started o ≡ some job → job.status ≡ succeeded → ⊥
not_yet none job e s = cc
not_yet (some j) job e s = cc

succeeded-result :
    (o : Option Job) (r : Error ⊎ Result) (job : Job)
    → change_job (ended r) o ≡ some job
    → job.status ≡ succeeded
    → r ≡ inr job.result
succeeded-result none r job e s = cc
succeeded-result (some j) (inl x) job e s = cc
succeeded-result (some j) (inr res) job e s = ground (arith, e)

stem-read :
    (id name : ℕ) (m : Manager) (job : Job) (audio : List ℕ)
    → m.jobs id ≡ some job
    → job.status ≡ succeeded
    → member name job.result.stems ≡ true
    → m.store id name ≡ some audio
    → stem id name m ≡ inr audio
unfolding stem get stem_of
stem-read id name m job audio e s h a = rw (e, s, h, a) refl

stored-read :
    (id name : ℕ) (outputs : List (ℕ × List ℕ)) (r : Error ⊎ Result) (m : Manager) (job : Job)
    → IsStored id outputs (r, m.store)
    → r ≡ inr job.result
    → m.jobs id ≡ some job
    → job.status ≡ succeeded
    → member name job.result.stems ≡ true
    → (audio : List ℕ) × IsOutput name audio outputs × (stem id name m ≡ inr audio)
stored-read id name outputs r m job k q e s h =
    let (audio, out, a) = subst (λ x. IsStored id outputs (x, m.store)) q k name h in
    (audio, out, stem-read id name m job audio e s h a)

conclude-IsReadable :
    (id : ℕ) (outputs : List (ℕ × List ℕ)) (o : Option Job) (r : Error ⊎ Result) (n : Manager)
    → n.jobs id ≡ change_job started o
    → IsStored id outputs (r, n.store)
    → IsReadable id outputs (conclude id (r, n))
unfolding conclude
conclude-IsReadable id outputs o r n q k =
    let n' : Manager = record n { jobs = update n.jobs id (change_job (ended r) (n.jobs id)) } in
    if_both (IsReadable id outputs) n.crashed n n' (λ job e s. absurd (not_yet o job (sym q ∙ e) s))
      (λ job e s name h.
        stored-read id name outputs r n' job k
          (succeeded-result (n.jobs id) r job
            (sym (update_self n.jobs id (change_job (ended r) (n.jobs id))) ∙ e) s)
          e s h)

run_job-IsReadable :
    (env : Env) (id : ℕ) (req : Request) (m : Manager)
    → IsReadable id (listed env.separated) (run_job env id req m)
unfolding run_job begin
run_job-IsReadable env id req m =
    let r = separate env id req (begin id m) in
    let done = separate-IsSeparated env id req (begin id m) in
    conclude-IsReadable id (listed env.separated) (m.jobs id) r.0 r.1
      (ap (λ jobs. jobs id) done.0 ∙ update_self m.jobs id (change_job started (m.jobs id))) done.1

-- If a job has succeeded after it was run, Stem answers, for each stem that its result lists, with
-- audio that the separator put out under that name.
pub stem-run_job :
    (env : Env) (id : ℕ) (req : Request) (m : Manager) (job : Job) (name : ℕ)
    → (run_job env id req m).jobs id ≡ some job
    → job.status ≡ succeeded
    → member name job.result.stems ≡ true
    → (audio : List ℕ) × IsOutput name audio (listed env.separated)
      × (stem id name (run_job env id req m) ≡ inr audio)
stem-run_job env id req m job name e s h = run_job-IsReadable env id req m job e s name h
