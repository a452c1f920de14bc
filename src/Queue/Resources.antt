-- ===== src/Queue/Resources.antt =====
-- acquireResource and releaseResource of internal/queue/queue.go. One round of the loop of
-- acquireResource is one critical section; a refused round is tried again after a sleep.
use audio_server.Common.{
  ℕ, suc, ◌-◌, ◌==◌, leb, ltb, ◌&&◌, ◌||◌, not, if◌then◌else◌, Bool, true, false, Option, none,
  some, is_empty, update,
}
use audio_server.Queue.Types.{Name, Manager, ResourceState}

-- Another provider held the resource last.
unfoldable pub is_handoff : ResourceState → Name → Bool
is_handoff st p = not (st.active_provider == 0) && not (st.active_provider == p)

abbrev quiet_for : ℕ → ℕ → Option ℕ → Bool
quiet_for now delay none = false
quiet_for now delay (some t) = leb delay (now - t)

unfoldable pub is_available : Manager → ResourceState → Name → ℕ → Bool
unfolding is_handoff
is_available m st p now =
    let available = (st.active_jobs == 0) || (st.active_provider == p) in
    let available' =
      if available && is_handoff st p then is_empty (m.queues st.active_provider) else available in
    if available' && is_handoff st p && ltb 0 st.switch_delay
    then quiet_for now st.switch_delay st.idle_since
    else available'

-- The manager and the resource once `p` has taken it.
unfoldable pub take_resource : Name → Name → ResourceState → Manager → Manager
unfolding is_handoff
take_resource g p st m =
    let warm' =
      if is_handoff st p then update (update m.warm st.active_provider false) p false else m.warm in
    let st' = record st {
      active_provider = p;
      active_jobs = suc st.active_jobs;
      idle_since = none;
    } in
    record m { warm = warm'; resources = update m.resources g (some st') }

-- `none`: the round is refused. A group without a state is a nil pointer.
unfoldable pub acquire_round : Name → Name → ℕ → Manager → Option ResourceState → Option Manager
unfolding is_available take_resource
acquire_round g p now m none = some (record m { panicked = true })
acquire_round g p now m (some st) =
    if is_available m st p now then some (take_resource g p st m) else none

unfoldable pub acquire_resource : Name → ℕ → Manager → Option Manager
unfolding acquire_round
acquire_resource p now m =
    if m.resource_for p == 0
    then some m
    else acquire_round (m.resource_for p) p now m (m.resources (m.resource_for p))

unfoldable pub release_state : Name → ℕ → ResourceState → ResourceState
release_state p now st =
    if not (st.active_provider == p) || (st.active_jobs == 0)
    then st
    else let left = st.active_jobs - 1 in
      record st { active_jobs = left; idle_since = if left == 0 then some now else st.idle_since }

unfoldable pub release_in : Name → Name → ℕ → Manager → Option ResourceState → Manager
unfolding release_state
release_in g p now m none = record m { panicked = true }
release_in g p now m (some st) = record m {
  resources = update m.resources g (some (release_state p now st));
}

unfoldable pub release_resource : Name → ℕ → Manager → Manager
unfolding release_in
release_resource p now m =
    if m.resource_for p == 0
    then m
    else release_in (m.resource_for p) p now m (m.resources (m.resource_for p))
