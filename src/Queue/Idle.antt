-- ===== src/Queue/Idle.antt =====
-- fireIdle of internal/queue/queue.go, run by a timer of its own goroutine. A cancelled timer that
-- has fired already still runs it.
use audio_server.Common.{
  ℕ, suc, ◌-◌, ◌==◌, ◌||◌, not, if◌then◌else◌, Bool, true, false, is_empty, update,
}
use audio_server.Queue.Types.{Name, Manager, Timer, unset, armed, fired}
use audio_server.Queue.Worker.{has_lifecycle, set_lifecycle_mu}

-- entering: before the first critical section; locking: before the lifecycle mutex;
-- idling: in the call of Idle, with that mutex.
pub data IdlePlace : Type 0 where
  entering locking idling gone : IdlePlace

pub record Idler : Type 0 where
  pub provider : Name
  pub place : IdlePlace

unfoldable pub is_busy : Name → Manager → Bool
is_busy p m = not (m.active p == 0) || not (is_empty (m.queues p)) || not (m.warm p)

abbrev pub is_armed : Timer → Bool
is_armed armed = true
is_armed unset = false
is_armed fired = false

-- To clear the entry does not stop a timer that it names.
abbrev forget : Name → Manager → Name → ℕ
forget p m =
    if is_armed (m.idle_timers p) then update m.forgotten p (suc (m.forgotten p)) else m.forgotten

unfoldable pub fire_idle : IdlePlace → Name → Manager → IdlePlace × Manager
unfolding is_busy has_lifecycle set_lifecycle_mu
fire_idle entering p m = if is_busy p m then (gone, m) else (
  if has_lifecycle (m.providers p) then locking else gone,
  record m {
    warm = update m.warm p false;
    idle_timers = update m.idle_timers p unset;
    forgotten = forget p m;
  },
)
fire_idle locking p m =
    if m.lifecycle_mu p then (locking, m) else (idling, set_lifecycle_mu p true m)
fire_idle idling p m = (gone, set_lifecycle_mu p false m)
fire_idle gone p m = (gone, m)

-- A timer that waits: the one that the entry names, or a forgotten one. When it expires its goroutine
-- starts, and its entry stays.
unfoldable pub waits_timer : Bool → Name → Manager → Bool
waits_timer old p m = if old then not (m.forgotten p == 0) else is_armed (m.idle_timers p)

unfoldable pub fire_timer : Bool → Name → Manager → Manager
fire_timer old p m =
    if old
    then record m { forgotten = update m.forgotten p (m.forgotten p - 1) }
    else record m { idle_timers = update m.idle_timers p fired }
