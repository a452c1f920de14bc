-- ===== src/Queue/Placement.antt =====
-- The jobs of internal/queue/queue.go over whole runs: none is lost, none runs twice, no panic.
use audio_server.Common.{◌≡◌, refl, false, is_some, arith, List, [], ◌∷◌, count, sum_by}
use audio_server.Queue.Types.{Name, Ptr, Manager}
use audio_server.Queue.System.{
  System, Config, ProviderConfig, Event, step, run, bare_manager, add_providers, add_group,
  add_groups, new_manager,
}
use audio_server.Queue.Counters.{one_if}
use audio_server.Queue.Ownership.{is_live, waits, is_served}
use audio_server.Queue.Exclusion.{IsExclusive}
use audio_server.Queue.Reach.{sum_by-spawn_all, step-IsExclusive, new_manager-IsExclusive}
use audio_server.Queue.Delivery.{carriers, JobsOk}
use audio_server.Queue.Calls.{AllProper, step-JobsOk}

run-JobsOk :
    (es : List Event) (s : System) → AllProper es s → IsExclusive s → JobsOk s → JobsOk (run es s)
unfolding run
run-JobsOk [] s h x v = v
run-JobsOk (e ∷ es) s h x v =
    run-JobsOk es (step e s) h.1 (step-IsExclusive e s x) (step-JobsOk e s h.0 x v)

-- NewManager's loops make no job.
record HasNoJobs (m : Manager) : Type 0 where
  no_queue : (q : Name) → m.queues q ≡ []
  no_memory : m.next ≡ 0
  no_bus : (j : Ptr) → is_some (m.heap j).stream_bus ≡ false
  calm : m.panicked ≡ false

add_providers-HasNoJobs :
    (cs : List ProviderConfig) (m : Manager) → HasNoJobs m → HasNoJobs (add_providers cs m)
unfolding add_providers
add_providers-HasNoJobs [] m v = v
add_providers-HasNoJobs (c ∷ cs) m v =
    add_providers-HasNoJobs cs _
      (record { no_queue = v.no_queue; no_memory = v.no_memory; no_bus = v.no_bus; calm = v.calm })

add_groups-HasNoJobs :
    (cfg : Config) (gs : List (Name × Name)) (m : Manager)
    → HasNoJobs m
    → HasNoJobs (add_groups cfg gs m)
unfolding add_groups
add_groups-HasNoJobs cfg [] m v = v
add_groups-HasNoJobs cfg ((p, g) ∷ rest) m v =
    add_groups-HasNoJobs cfg rest (add_group cfg p g m) (record {
      no_queue = λ q. ground (arith, v.no_queue q);
      no_memory = ground (arith, v.no_memory);
      no_bus = λ j. ground (arith, v.no_bus j);
      calm = ground (arith, v.calm);
    })

new_manager-JobsOk : (cfg : Config) → JobsOk (new_manager cfg)
unfolding new_manager bare_manager is_live
new_manager-JobsOk cfg = record {
  queues = λ j q. ground (arith, ready.no_queue q, ready.no_memory);
  served = λ j q.
      ground (arith, ready.no_memory, sum_by-spawn_all (carriers j q) (λ p. refl) cfg.providers);
  buses = λ j h. ground (arith, ready.no_bus j);
  calm = ready.calm;
}
  where
    ready :
        HasNoJobs
          (add_groups cfg cfg.resource_groups (add_providers cfg.providers (bare_manager cfg)))
    ready =
        add_groups-HasNoJobs cfg cfg.resource_groups
          (add_providers cfg.providers (bare_manager cfg))
          (add_providers-HasNoJobs cfg.providers (bare_manager cfg)
            (record { no_queue = λ q. refl; no_memory = refl; no_bus = λ j. refl; calm = refl }))

run-JobsOk_new :
    (cfg : Config) (es : List Event)
    → AllProper es (new_manager cfg)
    → JobsOk (run es (new_manager cfg))
run-JobsOk_new cfg es h =
    run-JobsOk es (new_manager cfg) h (new_manager-IsExclusive cfg) (new_manager-JobsOk cfg)

-- After any events in which CompleteJob and FailJob end only open jobs of NewRunningJob, every
-- unfinished job of the queue whose status is queued stands in its provider's queue exactly once
-- and with no worker; every other one is with exactly one worker, of its provider, and in no queue;
-- a finished job is in neither.
pub job_placement :
    (cfg : Config) (es : List Event) (q : Name) (j : Ptr)
    → AllProper es (new_manager cfg)
    → let s = run es (new_manager cfg) in
      (count j (s.manager.queues q) ≡ one_if (waits q j s.manager))
      × (sum_by (carriers j q) s.workers ≡ one_if (is_served q j s.manager))
job_placement cfg es q j h =
    ((run-JobsOk_new cfg es h).queues j q, (run-JobsOk_new cfg es h).served j q)

-- After such events nothing has panicked: no job's channel was closed twice, and no resource that
-- a group names was nil.
pub run-never_panics :
    (cfg : Config) (es : List Event)
    → AllProper es (new_manager cfg)
    → (run es (new_manager cfg)).manager.panicked ≡ false
run-never_panics cfg es h = (run-JobsOk_new cfg es h).calm
