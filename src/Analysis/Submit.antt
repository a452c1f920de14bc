-- ===== src/Analysis/Submit.antt =====
-- A job of internal/analysisjob/manager.go from Submit to its end.
use audio_server.Common.{
  ℕ, ◌≡◌, refl, ap, ◌∙◌, is_empty, true, false, Option, none, some, ◌⊎◌, inl, inr, arith,
  update_self,
}
use audio_server.Analysis.Types.{Floats}
use audio_server.Analysis.Effects.{Error}
use audio_server.Analysis.Jobs.{
  succeeded, failed, Request, Result, Job, Manager, knows_models, queued_job, add_job, submit, get,
  found, change_job, started, ended, begin, conclude,
}
use audio_server.Analysis.Analyze.{Env, analyze, run_job}
use audio_server.Analysis.Report.{IsReport, GivesBounded, analyze-IsReport}

module _ {F : Floats} where
  -- What Submit ensures of a job that it accepts.
  accepted :
      (new : Option ℕ) (req : Request) (m : Manager F) (id : ℕ) (run : Request)
      → (submit new req m).0 ≡ inr (id, run)
      → ((submit new req m).1.jobs id ≡ some queued_job)
        × (knows_models m run ≡ true)
        × (is_empty run.audio ≡ false)
  unfolding submit add_job
  accepted none req m id run e = ground (arith, e)
  accepted (some new) req m id run e = ground (arith, e)

  -- A job that has ended: with a report, or with an error and no result.
  abbrev pub IsFinal : Job F → Type 0
  IsFinal job =
      ((result : Result F) × (job.status ≡ succeeded)
        × (job.result ≡ some result)
        × (job.error ≡ none)
        × IsReport result)
      ⊎ ((e : Error) × (job.status ≡ failed) × (job.result ≡ none) × (job.error ≡ some e))

  ended-IsFinal :
      (o : Error ⊎ Result F) (job : Job F)
      → ((r : Result F) → o ≡ inr r → IsReport r)
      → IsFinal (ended o job)
  ended-IsFinal (inl e) job h = inr (e, refl, refl, refl)
  ended-IsFinal (inr r) job h = inl (r, refl, refl, refl, h r refl)

  jobs-run_job :
      (env : Env F) (id : ℕ) (req : Request) (m : Manager F)
      → (run_job env id req m).jobs id
        ≡ change_job (ended (analyze env (begin id m) req).1) (change_job started (m.jobs id))
  unfolding run_job begin conclude
  jobs-run_job env id req m =
      update_self (begin id m).jobs id _
      ∙ ap (change_job (ended (analyze env (begin id m) req).1)) (update_self m.jobs id _)

  -- If the starts and ends of the diarizer's turns, in thousands, are int64 and Submit accepts a
  -- request, it makes a queued job that Get finds, its request names known
  -- models, and once the goroutine of the job has run, Get finds it succeeded, with a report, or
  -- failed, with an error and without a result.
  pub get-run_job :
      (new : Option ℕ) (req : Request) (m : Manager F) (id : ℕ) (run : Request) (env : Env F)
      → GivesBounded env
      → (submit new req m).0 ≡ inr (id, run)
      → (get id (submit new req m).1 ≡ inr queued_job)
        × (knows_models m run ≡ true)
        × ((job : Job F) × (get id (run_job env id run (submit new req m).1) ≡ inr job)
            × IsFinal job)
  unfolding get
  get-run_job new req m id run env b e =
      let (made, known, sounds) = accepted new req m id run e in
      let m' = (submit new req m).1 in
      let o = (analyze env (begin id m') run).1 in
      (
        rw made refl,
        known,
        (
          ended o (started queued_job),
          ap found (
              jobs-run_job env id run m'
              ∙ ap (λ j. change_job (ended o) (change_job started j)) made),
          ended-IsFinal o (started queued_job)
              (λ r q. analyze-IsReport env (begin id m') run r b q),
        ),
      )
