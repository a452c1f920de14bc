-- ===== src/Queue/Timers.antt =====
-- startIdleTimerLocked and cancelIdleTimerLocked of internal/queue/queue.go.
use audio_server.Common.{Bool, true, false, ◌||◌, not, if◌then◌else◌, ◌==◌, update}
use audio_server.Queue.Types.{Name, Manager, Timer, unset, armed, fired}

-- The entry is nil exactly when it is `unset`.
abbrev pub is_unset : Timer → Bool
is_unset unset = true
is_unset armed = false
is_unset fired = false

unfoldable pub start_idle_timer : Name → Manager → Manager
start_idle_timer p m =
    if (m.idle_delay p == 0) || not (m.warm p)
    then m
    else if not (is_unset (m.idle_timers p))
    then m
    else record m { idle_timers = update m.idle_timers p armed }

-- `Stop` on a timer that has fired does not stop the call it started.
unfoldable pub cancel_idle_timer : Name → Manager → Manager
cancel_idle_timer p m = record m { idle_timers = update m.idle_timers p unset }
