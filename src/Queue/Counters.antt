-- ===== src/Queue/Counters.antt =====
-- The counters and mutexes of internal/queue/queue.go: `active` counts the workers with a job, and
-- a provider's lifecycle mutex has one holder at most, so Warm and Idle exclude one another.
use audio_server.Common.{
  sym, ◌∙◌, ℕ, ◌+◌, ◌≤◌, ◌==◌, ◌≡◌, ◌&&◌, refl, Bool, true, false, Option, none, some, arith,
  if◌then◌else◌, List, [], ◌∷◌, sum_by, sum_by-set, sum_by-ge, get_elem?,
}
use audio_server.Queue.Types.{Name, Manager}
use audio_server.Queue.Worker.{
  Worker, Place, waiting, acquiring, picking, backing_off, releasing, rechecking, warming, Env,
  advance,
}
use audio_server.Queue.Idle.{Idler, IdlePlace, entering, locking, idling, gone, fire_idle}
use audio_server.Queue.System.{
  System, Config, ProviderConfig, Event, step, run, works, idles, work, idle, bare_manager,
  add_providers, add_group, add_groups, new_manager,
}
use audio_server.Queue.Reach.{sum_by-spawn_all}

-- A worker with a job that is not finished.
abbrev pub has_job : Place → Bool
has_job waiting = false
has_job acquiring = false
has_job picking = false
has_job backing_off = false
has_job releasing = false
has_job _ = true

-- The holders of a lifecycle mutex; `warming` is the call of Warm, `idling` that of Idle.
abbrev pub locks : Place → Bool
locks (rechecking a) = true
locks (warming a) = true
locks _ = false

abbrev pub idle_locks : IdlePlace → Bool
idle_locks idling = true
idle_locks entering = false
idle_locks locking = false
idle_locks gone = false

abbrev pub one_if : Bool → ℕ
one_if b = if b then 1 else 0

abbrev pub counts_for : (Place → Bool) → Name → Worker → ℕ
counts_for f q w = one_if (f w.place && (w.provider == q))

abbrev pub idles_for : Name → Idler → ℕ
idles_for q d = one_if (idle_locks d.place && (d.provider == q))

pub record IsCounted (s : System) : Type 0 where
  pub active : (q : Name) → s.manager.active q ≡ sum_by (counts_for has_job q) s.workers
  pub locked :
      (q : Name)
      → sum_by (counts_for locks q) s.workers + sum_by (idles_for q) s.idlers
        ≡ one_if (s.manager.lifecycle_mu q)

-- The counter and the mutex move with the worker.
advance-active :
    (l : Place) (env : Env) (p q : Name) (m : Manager)
    → one_if (has_job l) ≤ m.active p
    → (advance l env p m).1.active q + one_if (has_job l && (p == q))
      ≡ m.active q + one_if (has_job (advance l env p m).0 && (p == q))
unfolding advance
advance-active acquiring env p q m h = ground arith
advance-active _ env p q m h = ground arith

advance-locked :
    (l : Place) (env : Env) (p q : Name) (m : Manager)
    → one_if (locks l) ≤ one_if (m.lifecycle_mu p)
    → one_if ((advance l env p m).1.lifecycle_mu q) + one_if (locks l && (p == q))
      ≡ one_if (m.lifecycle_mu q) + one_if (locks (advance l env p m).0 && (p == q))
unfolding advance
advance-locked acquiring env p q m h = ground arith
advance-locked _ env p q m h = ground arith

fire_idle-active :
    (l : IdlePlace) (p q : Name) (m : Manager) → (fire_idle l p m).1.active q ≡ m.active q
unfolding fire_idle
fire_idle-active entering p q m = ground arith
fire_idle-active _ p q m = ground arith

fire_idle-locked :
    (l : IdlePlace) (p q : Name) (m : Manager)
    → one_if (idle_locks l) ≤ one_if (m.lifecycle_mu p)
    → one_if ((fire_idle l p m).1.lifecycle_mu q) + one_if (idle_locks l && (p == q))
      ≡ one_if (m.lifecycle_mu q) + one_if (idle_locks (fire_idle l p m).0 && (p == q))
unfolding fire_idle
fire_idle-locked entering p q m h = ground arith
fire_idle-locked _ p q m h = ground arith

work-IsCounted :
    (i : ℕ) (env : Env) (s : System) (o : Option Worker)
    → get_elem? s.workers i ≡ o
    → IsCounted s
    → IsCounted (work i env o s)
unfolding work
work-IsCounted i env s none e v = v
work-IsCounted i env s (some w) e v = record {
  active = λ q. omega (
    arith,
    advance-active w.place env w.provider q s.manager (
        ground
          (arith, v.active w.provider, sum_by-ge (counts_for has_job w.provider) s.workers i e)),
    v.active q,
    sum_by-set (counts_for has_job q) s.workers i w' e,
  );
  locked = λ q. omega (
    arith,
    advance-locked w.place env w.provider q s.manager (
        ground (arith, v.locked w.provider, sum_by-ge (counts_for locks w.provider) s.workers i e)),
    v.locked q,
    sum_by-set (counts_for locks q) s.workers i w' e,
  );
}
  where
    w' : Worker
    w' = record w { place = (advance w.place env w.provider s.manager).0 }

idle-IsCounted :
    (i : ℕ) (s : System) (o : Option Idler)
    → get_elem? s.idlers i ≡ o
    → IsCounted s
    → IsCounted (idle i o s)
unfolding idle
idle-IsCounted i s none e v = v
idle-IsCounted i s (some d) e v = record {
  active = λ q. omega (arith, fire_idle-active d.place d.provider q s.manager, v.active q);
  locked = λ q. omega (
    arith,
    fire_idle-locked d.place d.provider q s.manager
        (ground (arith, v.locked d.provider, sum_by-ge (idles_for d.provider) s.idlers i e)),
    v.locked q,
    sum_by-set (idles_for q) s.idlers i d' e,
  );
}
  where
    d' : Idler
    d' = record d { place = (fire_idle d.place d.provider s.manager).0 }

pub step-IsCounted : (e : Event) (s : System) → IsCounted s → IsCounted (step e s)
unfolding step
step-IsCounted (works i env) s v = work-IsCounted i env s _ refl v
step-IsCounted (idles i) s v = idle-IsCounted i s _ refl v
step-IsCounted e s v = record {
  active = λ q. ground (arith, v.active q);
  locked = λ q. ground (arith, v.locked q);
}

run-IsCounted : (es : List Event) (s : System) → IsCounted s → IsCounted (run es s)
unfolding run
run-IsCounted [] s v = v
run-IsCounted (e ∷ es) s v = run-IsCounted es (step e s) (step-IsCounted e s v)

-- NewManager's loops leave the counters and mutexes at zero.
record AreIdle (m : Manager) : Type 0 where
  active : (q : Name) → m.active q ≡ 0
  locked : (q : Name) → m.lifecycle_mu q ≡ false

add_providers-AreIdle :
    (cs : List ProviderConfig) (m : Manager) → AreIdle m → AreIdle (add_providers cs m)
unfolding add_providers
add_providers-AreIdle [] m v = v
add_providers-AreIdle (c ∷ cs) m v =
    add_providers-AreIdle cs _ (record { active = v.active; locked = v.locked })

add_groups-AreIdle :
    (cfg : Config) (gs : List (Name × Name)) (m : Manager)
    → AreIdle m
    → AreIdle (add_groups cfg gs m)
unfolding add_groups
add_groups-AreIdle cfg [] m v = v
add_groups-AreIdle cfg ((p, g) ∷ rest) m v =
    add_groups-AreIdle cfg rest (add_group cfg p g m) (record {
      active = λ q. ground (arith, v.active q);
      locked = λ q. ground (arith, v.locked q);
    })

new_manager-IsCounted : (cfg : Config) → IsCounted (new_manager cfg)
unfolding new_manager bare_manager
new_manager-IsCounted cfg = record {
  active = λ q. ready.active q ∙ sym (sum_by-spawn_all _ (λ p. refl) cfg.providers);
  locked = λ q.
      ground
        (arith, ready.locked q, sum_by-spawn_all (counts_for locks q) (λ p. refl) cfg.providers);
}
  where
    ready :
        AreIdle
          (add_groups cfg cfg.resource_groups (add_providers cfg.providers (bare_manager cfg)))
    ready =
        add_groups-AreIdle cfg cfg.resource_groups (add_providers cfg.providers (bare_manager cfg))
          (add_providers-AreIdle cfg.providers (bare_manager cfg)
            (record { active = λ q. refl; locked = λ q. refl }))

-- After any events, `active` of a provider is the number of its workers that have a job.
pub active-counts_jobs :
    (cfg : Config) (es : List Event) (q : Name)
    → (run es (new_manager cfg)).manager.active q
      ≡ sum_by (counts_for has_job q) (run es (new_manager cfg)).workers
active-counts_jobs cfg es q = (run-IsCounted es _ (new_manager-IsCounted cfg)).active q

-- After any events, the workers that hold a provider's lifecycle mutex (a call of Warm included)
-- and its calls of Idle are one at most, taken together.
pub warm_idle_exclusive :
    (cfg : Config) (es : List Event) (q : Name)
    → sum_by (counts_for locks q) (run es (new_manager cfg)).workers
        + sum_by (idles_for q) (run es (new_manager cfg)).idlers
      ≤ 1
warm_idle_exclusive cfg es q =
    ground (arith, (run-IsCounted es _ (new_manager-IsCounted cfg)).locked q)
