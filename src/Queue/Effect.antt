-- ===== src/Queue/Effect.antt =====
-- What one step of a worker (internal/queue/queue.go) does to the shared resources.
use audio_server.Common.{
  ℕ, suc, ◌==◌, ◌≡◌, ◌≢◌, ◌⊎◌, inl, inr, refl, Bool, true, false, Option, none, some, arith, update,
  Bool-cases,
}
use audio_server.Queue.Types.{Name, Manager, ResourceState}
use audio_server.Queue.Resources.{
  is_available, take_resource, acquire_round, acquire_resource, release_state, release_in,
  release_resource,
}
use audio_server.Queue.Worker.{
  Env, Place, waiting, acquiring, backing_off, releasing, acquire_outcome, advance,
}

-- The places between acquireResource and the end of releaseResource.
abbrev pub holds : Place → Bool
holds waiting = false
holds acquiring = false
holds _ = true

abbrev pub taken_by : Name → ResourceState → ResourceState
taken_by p st = record st {
  active_provider = p;
  active_jobs = suc st.active_jobs;
  idle_since = none;
}

pub data Effect (p : Name) (l l' : Place) (m m' : Manager) : Type 0 where
  kept : m'.resources ≡ m.resources → holds l' ≡ holds l → Effect p l l' m m'
  outside : m'.resources ≡ m.resources → m.resource_for p ≡ 0 → Effect p l l' m m'
  missing : m.resource_for p ≢ 0 → m.resources (m.resource_for p) ≡ none → Effect p l l' m m'
  acquired :
      (st : ResourceState)
      → m.resource_for p ≢ 0
      → m.resources (m.resource_for p) ≡ some st
      → holds l ≡ false
      → holds l' ≡ true
      → (st.active_jobs ≡ 0) ⊎ (st.active_provider ≡ p)
      → m'.resources ≡ update m.resources (m.resource_for p) (some (taken_by p st))
      → Effect p l l' m m'
  released :
      (st : ResourceState) (now : ℕ)
      → m.resource_for p ≢ 0
      → m.resources (m.resource_for p) ≡ some st
      → holds l ≡ true
      → holds l' ≡ false
      → m'.resources ≡ update m.resources (m.resource_for p) (some (release_state p now st))
      → Effect p l l' m m'

is_available-free :
    (m : Manager) (st : ResourceState) (p : Name) (now : ℕ)
    → is_available m st p now ≡ true
    → (st.active_jobs ≡ 0) ⊎ (st.active_provider ≡ p)
unfolding is_available
is_available-free m st p now h = ground arith

take_resource-resources :
    (g p : Name) (st : ResourceState) (m : Manager)
    → (take_resource g p st m).resources ≡ update m.resources g (some (taken_by p st))
unfolding take_resource
take_resource-resources g p st m = refl

round-Effect :
    (p : Name) (now : ℕ) (m : Manager) (o : Option ResourceState)
    → m.resource_for p ≢ 0
    → m.resources (m.resource_for p) ≡ o
    → let r = acquire_outcome m (acquire_round (m.resource_for p) p now m o) in
      Effect p acquiring r.0 m r.1
unfolding acquire_round
round-Effect p now m none g e = missing g e
round-Effect p now m (some st) g e = elim (Bool-cases (is_available m st p now)) [
  | inl a ↦ rw a (
      acquired st g e refl refl (is_available-free m st p now a)
        (take_resource-resources (m.resource_for p) p st m))
  | inr a ↦ rw a (kept refl refl)
]

acquire-Effect :
    (now : ℕ) (p : Name) (m : Manager)
    → let r = acquire_outcome m (acquire_resource p now m) in Effect p acquiring r.0 m r.1
unfolding acquire_resource
acquire-Effect now p m = elim (Bool-cases (m.resource_for p == 0)) [
  | inl e ↦ rw e (outside refl (ground arith))
  | inr e ↦ rw e (round-Effect p now m _ (ground arith) refl)
]

release_in-Effect :
    (p : Name) (l : Place) (now : ℕ) (m : Manager) (o : Option ResourceState)
    → holds l ≡ true
    → m.resource_for p ≢ 0
    → m.resources (m.resource_for p) ≡ o
    → Effect p l waiting m (release_in (m.resource_for p) p now m o)
unfolding release_in
release_in-Effect p l now m none h g e = missing g e
release_in-Effect p l now m (some st) h g e = released st now g e h refl refl

release-Effect :
    (p : Name) (l : Place) (now : ℕ) (m : Manager)
    → holds l ≡ true
    → Effect p l waiting m (release_resource p now m)
unfolding release_resource
release-Effect p l now m h = elim (Bool-cases (m.resource_for p == 0)) [
  | inl e ↦ rw e (outside refl (ground arith))
  | inr e ↦ rw e (release_in-Effect p l now m _ h (ground arith) refl)
]

pub advance-Effect :
    (l : Place) (env : Env) (p : Name) (m : Manager)
    → Effect p l (advance l env p m).0 m (advance l env p m).1
unfolding advance
advance-Effect acquiring env p m = acquire-Effect env.now p m
advance-Effect backing_off env p m = release-Effect p backing_off env.now m refl
advance-Effect releasing env p m = release-Effect p releasing env.now m refl
advance-Effect _ env p m = kept (ground arith) (ground arith)

-- Nor do the workers assign providers to groups anew.
pub advance-resource_for :
    (l : Place) (env : Env) (p : Name) (m : Manager)
    → (advance l env p m).1.resource_for ≡ m.resource_for
unfolding advance
advance-resource_for acquiring env p m = ground arith
advance-resource_for _ env p m = ground arith
