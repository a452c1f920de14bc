-- ===== src/Queue/Delivery.antt =====
-- Over any interleaving, internal/queue/queue.go loses no job, runs none twice and does not panic.
use audio_server.Common.{
  ℕ, ◌+◌, ◌==◌, ◌≡◌, ◌&&◌, Bool, true, false, Option, none, some, arith, if◌then◌else◌, [], ◌∷◌,
  count, sum_by, sum_by-set, sum_by-ge, sum_by-append, get_elem?,
}
use audio_server.Queue.Types.{Name, Ptr, Manager, SpeechRequest}
use audio_server.Queue.Jobs.{enqueue}
use audio_server.Queue.Worker.{Worker, Env, advance}
use audio_server.Queue.Idle.{Idler, IdlePlace, entering, fire_idle}
use audio_server.Queue.System.{System, with_manager, work, idle}
use audio_server.Queue.Counters.{one_if}
use audio_server.Queue.Ownership.{is_live, queued_at, waits, is_served, carries, QueueOk, CargoOk}
use audio_server.Queue.Balance.{JobStep, advance-JobStep}
use audio_server.Queue.Exclusion.{IsExclusive}
use audio_server.Queue.Safety.{BusOk, advance-BusOk, advance-panicked}

abbrev pub carriers : Ptr → Name → Worker → ℕ
carriers j q w = one_if (carries j w.place && (w.provider == q))

pub record JobsOk (s : System) : Type 0 where
  pub queues : (j : Ptr) (q : Name) → QueueOk q j s.manager
  pub served :
      (j : Ptr) (q : Name) → sum_by (carriers j q) s.workers ≡ one_if (is_served q j s.manager)
  pub buses : (j : Ptr) → BusOk j s.manager
  pub calm : s.manager.panicked ≡ false

-- A worker's cargo is served.
worker-CargoOk :
    (s : System) (i : ℕ) (w : Worker)
    → get_elem? s.workers i ≡ some w
    → JobsOk s
    → CargoOk w.place w.provider s.manager
worker-CargoOk s i w at v a e =
    ground (arith, v.served a w.provider, sum_by-ge (carriers a w.provider) s.workers i at)

pub work-JobsOk :
    (i : ℕ) (env : Env) (s : System) (o : Option Worker)
    → get_elem? s.workers i ≡ o
    → IsExclusive s
    → JobsOk s
    → JobsOk (work i env o s)
unfolding work
work-JobsOk i env s none e x v = v
work-JobsOk i env s (some w) e x v = record {
  queues = λ j q. (one j q).queue;
  served = λ j q.
      omega (arith, (one j q).balance, v.served j q, sum_by-set (carriers j q) s.workers i w' e);
  buses = λ j. advance-BusOk env w.provider s.manager w.place j cargo_ok (v.buses j);
  calm = advance-panicked env w.provider s.manager w.place cargo_ok (x.present w.provider) v.calm;
}
  where
    w' : Worker
    w' = record w { place = (advance w.place env w.provider s.manager).0 }

    cargo_ok : CargoOk w.place w.provider s.manager
    cargo_ok = worker-CargoOk s i w e v

    one :
        (j : Ptr) (q : Name)
        → JobStep w.place
            (advance w.place env w.provider s.manager).0
            w.provider
            q
            j
            s.manager
            (advance w.place env w.provider s.manager).1
    one j q = advance-JobStep env w.provider q j s.manager v.queues w.place cargo_ok

-- A change of the manager under which the jobs stay where they are.
pub record SameJobs (m m' : Manager) : Type 0 where
  pub same_queue : (j : Ptr) (q : Name) → count j (m'.queues q) ≡ count j (m.queues q)
  pub same_waits : (j : Ptr) (q : Name) → waits q j m' ≡ waits q j m
  pub same_served : (j : Ptr) (q : Name) → is_served q j m' ≡ is_served q j m
  pub buses : (j : Ptr) → BusOk j m → BusOk j m'
  pub calm : m.panicked ≡ false → m'.panicked ≡ false

pub same-JobsOk :
    (s : System) (m' : Manager) → SameJobs s.manager m' → JobsOk s → JobsOk (with_manager s m')
same-JobsOk s m' h v = record {
  queues = λ j q. ground (arith, v.queues j q, h.same_queue j q, h.same_waits j q);
  served = λ j q. ground (arith, v.served j q, h.same_served j q);
  buses = λ j. h.buses j (v.buses j);
  calm = h.calm v.calm;
}

fire_idle-SameJobs : (l : IdlePlace) (p : Name) (m : Manager) → SameJobs m (fire_idle l p m).1
unfolding fire_idle is_live
fire_idle-SameJobs entering p m = record {
  same_queue = λ j q. ground arith;
  same_waits = λ j q. ground arith;
  same_served = λ j q. ground arith;
  buses = λ j h. ground arith;
  calm = λ h. ground arith;
}
fire_idle-SameJobs _ p m = record {
  same_queue = λ j q. ground arith;
  same_waits = λ j q. ground arith;
  same_served = λ j q. ground arith;
  buses = λ j h. ground arith;
  calm = λ h. ground arith;
}

pub fire_idle-JobsOk : (i : ℕ) (s : System) (o : Option Idler) → JobsOk s → JobsOk (idle i o s)
unfolding idle
fire_idle-JobsOk i s none v = v
fire_idle-JobsOk i s (some d) v =
    let w : JobsOk (with_manager s (fire_idle d.place d.provider s.manager).1) =
      same-JobsOk s _ (fire_idle-SameJobs d.place d.provider s.manager) v in
    record { queues = w.queues; served = w.served; buses = w.buses; calm = w.calm }

-- A submitted job is new, and in its queue.
module _ (p id : Name) (req : SpeechRequest) (streams : Bool) (now : ℕ) (m : Manager) where
  enqueue-count :
      (j : Ptr) (q : Name)
      → count j ((enqueue p id req streams now m).queues q)
        ≡ count j (m.queues q) + one_if ((m.next == j) && (p == q))
  unfolding enqueue
  enqueue-count j q =
      ground (arith, sum_by-append (λ x. if x == j then 1 else 0) (m.queues p) (m.next ∷ []))

  enqueue-is_live :
      (j : Ptr) (q : Name)
      → is_live q j (enqueue p id req streams now m)
        ≡ (if m.next == j then p == q else is_live q j m)
  unfolding enqueue is_live
  enqueue-is_live j q = ground arith

  enqueue-queued_at :
      (j : Ptr)
      → queued_at j (enqueue p id req streams now m) ≡ (if m.next == j then true else queued_at j m)
  unfolding enqueue
  enqueue-queued_at j = ground arith

  next-is_live : (q : Name) → is_live q m.next m ≡ false
  unfolding is_live
  next-is_live q = ground arith

pub enqueue-JobsOk :
    (p id : Name) (req : SpeechRequest) (streams : Bool) (now : ℕ) (s : System)
    → JobsOk s
    → JobsOk (with_manager s (enqueue p id req streams now s.manager))
unfolding enqueue
enqueue-JobsOk p id req streams now s v = record {
  queues = λ j q. ground (
    arith,
    v.queues j q,
    enqueue-count p id req streams now s.manager j q,
    enqueue-is_live p id req streams now s.manager j q,
    enqueue-queued_at p id req streams now s.manager j,
    next-is_live p id req streams now s.manager q,
  );
  served = λ j q. ground (
    arith,
    v.served j q,
    enqueue-is_live p id req streams now s.manager j q,
    enqueue-queued_at p id req streams now s.manager j,
    next-is_live p id req streams now s.manager q,
  );
  buses = λ j h. ground (arith, v.buses j);
  calm = ground (arith, v.calm);
}
