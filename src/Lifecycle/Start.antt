-- ===== src/Lifecycle/Start.antt =====
-- start, tryStartLocked and stopOthersLocked of internal/lifecycle/lifecycle.go. The clock is read
-- once in a call.
use audio_server.Common.{
  ℕ, zero, suc, ◌==◌, ltb, ◌||◌, not, if◌then◌else◌, Bool, true, false, Option, none, some, List,
  map, length,
}
use audio_server.Lifecycle.Types.{
  Name, Instance, Manager, Error, unknown_instance, start_failed, lookup, modify, stop,
}
use audio_server.Lifecycle.Room.{Meter, make_room, evict_oldest_idle}

-- How a launch ends: healthy, not executed, or unhealthy, with an out-of-memory message or not.
pub data Attempt : Type 0 where
  healthy : Attempt
  not_executed : Attempt
  unhealthy : Bool → Attempt

-- `stuck` is no result of the source: the loop ran out of fuel.
pub data Launch : Type 0 where
  launched gave_up stuck : Launch

abbrev pub is_oom : Attempt → Bool
is_oom healthy = false
is_oom not_executed = false
is_oom (unhealthy oom) = oom

abbrev pub is_healthy : Attempt → Bool
is_healthy healthy = true
is_healthy not_executed = false
is_healthy (unhealthy oom) = false

-- The instance after tryStartLocked.
unfoldable pub try_start : ℕ → Attempt → Instance → Instance
try_start now healthy i = record i { running = true; last_used = now }
try_start now not_executed i = i
try_start now (unhealthy oom) i = record i { running = false; last_used = now }

-- The loop of start: an out-of-memory failure is tried again once an idle model is evicted.
-- `attempts k` is how launch `k` ends.
unfoldable pub start_loop :
    ℕ → Name → ℕ → (ℕ → Attempt) → ℕ → List Instance → List Instance × Launch
unfolding try_start
start_loop zero n now attempts k is = (is, stuck)
start_loop (suc fuel) n now attempts k is =
    let is' = modify n (try_start now (attempts k)) is in
    let (is'', evicted) = evict_oldest_idle n is' in
    let rest = start_loop fuel n now attempts (suc k) is'' in
    if is_healthy (attempts k)
    then (is', launched)
    else if not (is_oom (attempts k))
    then (is', gave_up)
    else if evicted
    then rest
    else (is', gave_up)

unfoldable pub stop_others : Name → List Instance → List Instance
stop_others exclude = map spare
  where
    spare : Instance → Instance
    spare i = if (i.name == exclude) || not (i.active == 0) then i else stop i

-- The use of a resident instance, and the last lines of start.
abbrev pub touch : Bool → ℕ → Instance → Instance
touch acquire now i = record i {
  last_used = now;
  active = if acquire then suc i.active else i.active;
}

abbrev pub settle : Bool → Instance → Instance
settle acquire i = record i {
  active = if acquire then suc i.active else i.active;
  watcher_started = i.watcher_started || ltb 0 i.idle_timeout;
}

-- What the calls out of one call of start answer.
pub record Env : Type 0 where
  pub now : ℕ
  pub meter : Meter
  pub attempts : ℕ → Attempt

-- The end of start, from how the loop ended.
unfoldable pub end_start : Name → Bool → List Instance × Launch → List Instance × Option Error
end_start n acquire (is, launched) = (modify n (settle acquire) is, none)
end_start n acquire (is, gave_up) = (is, some start_failed)
end_start n acquire (is, stuck) = (is, some start_failed)

unfoldable pub launch : Name → Bool → Env → List Instance → List Instance × Option Error
unfolding start_loop end_start
launch n acquire env is =
    end_start n acquire (start_loop (suc (length is)) n env.now env.attempts 0 is)

-- Room for the instance, by stopping all others or by the budget.
unfoldable pub clear_room : Manager → Name → Bool → Meter → ℕ → List Instance × Meter × Option Error
unfolding stop_others make_room
clear_room m n exclusive meter vram_mib =
    if exclusive
    then (stop_others n m.instances, meter, none)
    else make_room m.max_vram_mib m.has_meter n vram_mib meter m.instances

unfoldable pub start_cold :
    Name → Bool → Env → List Instance × Meter × Option Error → List Instance × Option Error
unfolding launch
start_cold n acquire env (is, meter, none) = launch n acquire env is
start_cold n acquire env (is, meter, some e) = (is, some e)

unfoldable pub start_with :
    Manager → Name → Bool → Bool → Env → Option Instance → List Instance × Option Error
unfolding start_cold clear_room
start_with m n exclusive acquire env none = (m.instances, some unknown_instance)
start_with m n exclusive acquire env (some i) =
    if i.running
    then (modify n (touch acquire env.now) m.instances, none)
    else start_cold n acquire env (clear_room m n exclusive env.meter i.vram_mib)

unfoldable pub start : Name → Bool → Bool → Env → Manager → List Instance × Option Error
unfolding start_with
start n exclusive acquire env m = start_with m n exclusive acquire env (lookup n m.instances)
