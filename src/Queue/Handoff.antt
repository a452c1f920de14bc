-- ===== src/Queue/Handoff.antt =====
-- When acquireResource of internal/queue/queue.go lets a resource change providers, and how
-- submitted jobs line up.
use audio_server.Common.{
  ℕ, suc, ◌+◌, ◌≤◌, ◌<◌, ◌≡◌, ◌≢◌, Bool, true, false, none, some, arith, List, [], ◌∷◌, ◌++◌,
  length, All, ltb, Option-cases, Bool-cases, ◌⊎◌, inl, inr, subst,
}
use audio_server.Queue.Types.{Name, Ptr, Manager, Job, Provider, ResourceState, SpeechRequest}
use audio_server.Queue.Resources.{
  is_available, is_handoff, take_resource, acquire_round, acquire_resource,
}
use audio_server.Queue.Jobs.{submit, submit_with, enqueue, position, position_from}
use audio_server.Queue.System.{Config, Event, run, new_manager}
use audio_server.Queue.Exclusion.{holders}
use audio_server.Queue.Reach.{run-IsExclusive_new}

-- When provider `p` may take the resource over from provider `q` at `now`, with `n` workers in it.
pub record MayTakeOver (q : Name) (n now : ℕ) (st : ResourceState) (m : Manager) : Type 0 where
  pub free : n ≡ 0
  pub drained : m.queues q ≡ []
  pub quiet : 0 < st.switch_delay → (t : ℕ) × (st.idle_since ≡ some t) × (t + st.switch_delay ≤ now)

-- A round of acquireResource: refused while the resource may not be taken over, and otherwise it is
-- taken and both providers are marked cold.
abbrev pub IsHandoff : Name → Name → ℕ → ℕ → ResourceState → Manager → Type 0
IsHandoff p q n now st m =
    ((acquire_resource p now m ≡ none) × ¬ MayTakeOver q n now st m)
    ⊎ ((m' : Manager) × (acquire_resource p now m ≡ some m')
        × MayTakeOver q n now st m
        × (m'.warm q ≡ false)
        × (m'.warm p ≡ false))

available-MayTakeOver :
    (p : Name) (now : ℕ) (st : ResourceState) (m : Manager)
    → st.active_provider ≢ 0
    → st.active_provider ≢ p
    → is_available m st p now ≡ true
    → MayTakeOver st.active_provider st.active_jobs now st m
unfolding is_available is_handoff
available-MayTakeOver p now st m a b h = record {
  free = ground arith;
  drained = ground arith;
  quiet = λ d. elim (Option-cases st.idle_since) [
    | inl n ↦ absurd (ground arith)
    | inr (t, n) ↦ (t, n, ground arith)
  ];
}

MayTakeOver-available :
    (p : Name) (now : ℕ) (st : ResourceState) (m : Manager)
    → MayTakeOver st.active_provider st.active_jobs now st m
    → is_available m st p now ≡ true
unfolding is_available is_handoff
MayTakeOver-available p now st m h = elim (Bool-cases (ltb 0 st.switch_delay)) [
  | inl d ↦
      (let q : (t : ℕ) × (st.idle_since ≡ some t) × (t + st.switch_delay ≤ now) =
          h.quiet (ground arith) in
        ground (arith, h.free, h.drained, d, q.1, q.2))
  | inr z ↦ ground (arith, h.free, h.drained, z)
]

round-IsHandoff :
    (p : Name) (now : ℕ) (st : ResourceState) (m : Manager)
    → m.resource_for p ≢ 0
    → m.resources (m.resource_for p) ≡ some st
    → st.active_provider ≢ 0
    → st.active_provider ≢ p
    → IsHandoff p st.active_provider st.active_jobs now st m
unfolding acquire_resource acquire_round take_resource is_handoff
round-IsHandoff p now st m g e a b = elim (Bool-cases (is_available m st p now)) [
  | inl h ↦ inr (
    take_resource (m.resource_for p) p st m,
    ground (arith, g, e, h),
    available-MayTakeOver p now st m a b h,
    ground arith,
    ground arith,
  )
  | inr h ↦
      inl (
        ground (arith, g, e, h),
        λ t. absurd (ground (arith, h, MayTakeOver-available p now st m t)),
      )
]

-- In every state that NewManager and any events lead to, and for a provider `p` whose group was last
-- used by another provider `q`: a round of acquireResource for `p` is accepted exactly if no worker
-- is in the group, the queue of `q` is empty and a switch delay that is set has passed since the
-- resource became idle; and if it is accepted, both providers are marked cold.
pub acquire-IsHandoff :
    (cfg : Config) (es : List Event) (p : Name) (now : ℕ) (st : ResourceState)
    → (run es (new_manager cfg)).manager.resource_for p ≢ 0
    → (run es (new_manager cfg)).manager.resources
        ((run es (new_manager cfg)).manager.resource_for p)
      ≡ some st
    → st.active_provider ≢ 0
    → st.active_provider ≢ p
    → IsHandoff p st.active_provider
        (holders (run es (new_manager cfg)) ((run es (new_manager cfg)).manager.resource_for p))
        now
        st
        (run es (new_manager cfg)).manager
acquire-IsHandoff cfg es p now st g e a b =
    subst (λ n. IsHandoff p st.active_provider n now st (run es (new_manager cfg)).manager)
      ((run-IsExclusive_new cfg es).groups _ st g e).counted
      (round-IsHandoff p now st (run es (new_manager cfg)).manager g e a b)

-- The jobs of a queue are in memory, and none has the id.
abbrev pub IsFreshIn : Name → Manager → List Ptr → Type 0
IsFreshIn id m = All (λ a. (a < m.next) × ((m.heap a).id ≢ id))

position_from-append :
    (heap' : Ptr → Job) (id : Name) (i n : ℕ) (rest : List Ptr)
    → All (λ a. (heap' a).id ≢ id) rest
    → (heap' n).id ≡ id
    → position_from heap' id i (rest ++ (n ∷ [])) ≡ suc (i + length rest)
unfolding position_from
position_from-append heap' id i n [] h e = ground arith
position_from-append heap' id i n (a ∷ rest) h e =
    ground (arith, position_from-append heap' id (suc i) n rest h.1 e)

enqueue-ids :
    (p id : Name) (req : SpeechRequest) (streams : Bool) (now : ℕ) (m : Manager) (rest : List Ptr)
    → IsFreshIn id m rest
    → All (λ a. ((enqueue p id req streams now m).heap a).id ≢ id) rest
unfolding enqueue
enqueue-ids p id req streams now m [] h = tt
enqueue-ids p id req streams now m (a ∷ rest) h =
    (ground arith, enqueue-ids p id req streams now m rest h.1)

enqueue_new-id :
    (p id : Name) (req : SpeechRequest) (streams : Bool) (now : ℕ) (m : Manager)
    → ((enqueue p id req streams now m).heap m.next).id ≡ id
unfolding enqueue
enqueue_new-id p id req streams now m = ground arith

-- A job that is submitted with an id that no job of its queue has stands last: its Position is one
-- more than the number of jobs that were in the queue.
pub position-submit :
    (p id : Name) (req : SpeechRequest) (now : ℕ) (m : Manager) {r : Provider}
    → m.providers p ≡ some r
    → IsFreshIn id m (m.queues p)
    → position id (submit p id req now m).0 ≡ some (suc (length (m.queues p)))
unfolding position submit submit_with enqueue
position-submit p id req now m e h =
    rw (e, submit_with)
      (ground (
        arith,
        position_from-append (enqueue p id req false now m).heap id 0 m.next (m.queues p)
            (enqueue-ids p id req false now m (m.queues p) h) (enqueue_new-id p id req false now m),
      ))
