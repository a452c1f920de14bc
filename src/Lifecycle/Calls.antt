-- ===== src/Lifecycle/Calls.antt =====
-- Has, Acquire and its release, Start, Bump, StopAll and the idle watcher of
-- internal/lifecycle/lifecycle.go, as the events of a run.
use audio_server.Common.{
  ℕ, ◌-◌, ltb, ◌&&◌, ◌||◌, not, if◌then◌else◌, is_some, Bool, true, false, Option, none, some, List,
  [], ◌∷◌, map, get_elem?, set,
}
use audio_server.Lifecycle.Types.{
  Name, Instance, Manager, Error, lookup, modify, stop, is_evictable,
}
use audio_server.Lifecycle.Start.{Env, start}

abbrev with_instances : Manager → List Instance → Manager
with_instances m is = record m { instances = is }

unfoldable pub has : Name → Manager → Bool
has n m = is_some (lookup n m.instances)

-- Acquire takes `execMu` and keeps it, unless the start fails. The whole start is one step, and
-- `exec_holder` is the caller to which Acquire has returned, so it is set after the start, although
-- the code holds `execMu` from before it. Of the calls that do not take `startMu`, a release needs a
-- holder, which there is none of during the start of Acquire; one that falls into a Warm or a Bump
-- stands before or after it.
unfoldable pub acquired : Name → Manager → List Instance × Option Error → Manager × Option Error
acquired n m (is, none) = (record m { instances = is; exec_holder = some n }, none)
acquired n m (is, some e) = (with_instances m is, some e)

unfoldable pub acquire : Name → Env → Manager → Manager × Option Error
unfolding acquired
acquire n env m = acquired n m (start n false true env m)

-- The function that Acquire returned, called by its holder.
abbrev pub leave : ℕ → Instance → Instance
leave now i = record i { active = i.active - 1; last_used = now }

unfoldable pub release_for : ℕ → Manager → Option Name → Manager
release_for now m none = m
release_for now m (some n) = record m {
  instances = modify n (leave now) m.instances;
  exec_holder = none;
}

unfoldable pub release : ℕ → Manager → Manager
unfolding release_for
release now m = release_for now m m.exec_holder

unfoldable pub bump : Name → ℕ → Manager → Manager
bump n now m = with_instances m (modify n (λ i. record i { last_used = now }) m.instances)

abbrev pub any_closed : List Instance → Bool
any_closed [] = false
any_closed (i ∷ is) = i.stop_closed || any_closed is

abbrev pub shut_down : Instance → Instance
shut_down i = record i { running = false; stop_closed = true }

-- Closing `stopCh` twice is a panic.
unfoldable pub stop_all : Manager → Manager
stop_all m = record m {
  instances = map shut_down m.instances;
  panicked = m.panicked || any_closed m.instances;
}

-- A tick of the idle watcher of the instance at an index.
unfoldable pub idle_tick : ℕ → ℕ → Option Instance → List Instance → List Instance
idle_tick k now none is = is
idle_tick k now (some i) is =
    if i.watcher_started
      && not i.stop_closed
      && is_evictable i
      && ltb i.idle_timeout (now - i.last_used)
    then set is k (stop i)
    else is

-- A caller of Acquire or StopAll that finds `execMu` held waits: the event leaves the state.
pub data Event : Type 0 where
  acquires : Name → Env → Event
  releases : ℕ → Event
  starts : Name → Bool → Env → Event
  bumps : Name → ℕ → Event
  ticks : ℕ → ℕ → Event
  stops_all : Event

unfoldable pub step : Event → Manager → Manager
unfolding acquire release bump stop_all idle_tick
step (acquires n env) m = if is_some m.exec_holder then m else (acquire n env m).0
step (releases now) m = release now m
step (starts n exclusive env) m = with_instances m (start n exclusive false env m).0
step (bumps n now) m = bump n now m
step (ticks k now) m = with_instances m (idle_tick k now (get_elem? m.instances k) m.instances)
step stops_all m = if is_some m.exec_holder then m else stop_all m

unfoldable pub run : List Event → Manager → Manager
run [] m = m
run (e ∷ es) m = run es (step e m)
