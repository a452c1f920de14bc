-- ===== src/Queue/Exclusion.antt =====
-- Shared resources of internal/queue/queue.go: queue workers of different providers of one group never
-- run at the same time. The jobs of NewRunningJob take no resource.
use audio_server.Common.{
  subst, ℕ, ◌+◌, ◌≤◌, ◌==◌, ◌≡◌, ◌≢◌, ◌⊎◌, ◌&&◌, inl, inr, refl, true, false, none, some, arith,
  update, Bool-cases, if◌then◌else◌, sum_by, sum_by-set, sum_by-le, sum_by-ge, ==→eq, get_elem?,
  set,
}
use audio_server.Queue.Types.{Name, Manager, ResourceState}
use audio_server.Queue.Resources.{release_state}
use audio_server.Queue.Worker.{Worker, Place}
use audio_server.Queue.System.{System}
use audio_server.Queue.Effect.{holds, taken_by, Effect, kept, outside, missing, acquired, released}

-- A worker that holds group `g`, and one that does so for provider `q`.
abbrev pub in_group : (Name → Name) → Name → Worker → ℕ
in_group rf g w = if holds w.place && (rf w.provider == g) then 1 else 0

abbrev pub for_provider : (Name → Name) → Name → Name → Worker → ℕ
for_provider rf g q w = if w.provider == q then in_group rf g w else 0

abbrev pub holders : System → Name → ℕ
holders s g = sum_by (in_group s.manager.resource_for g) s.workers

abbrev pub holders_for : System → Name → Name → ℕ
holders_for s g q = sum_by (for_provider s.manager.resource_for g q) s.workers

-- One group's counter is the number of workers that hold it, all of them for its provider.
pub record GroupOk (s : System) (g : Name) (st : ResourceState) : Type 0 where
  pub counted : st.active_jobs ≡ holders s g
  pub owned : (q : Name) → st.active_provider ≢ q → holders_for s g q ≡ 0

pub record IsExclusive (s : System) : Type 0 where
  pub groups :
      (g : Name) (st : ResourceState) → g ≢ 0 → s.manager.resources g ≡ some st → GroupOk s g st
  pub present :
      (p : Name)
      → s.manager.resource_for p ≢ 0
      → s.manager.resources (s.manager.resource_for p) ≢ none

for_provider-le :
    (rf : Name → Name) (g q : Name) (w : Worker) → for_provider rf g q w ≤ in_group rf g w
for_provider-le rf g q w = ground arith

holders_for-le : (s : System) (g q : Name) → holders_for s g q ≤ holders s g
holders_for-le s g q =
    sum_by-le (for_provider s.manager.resource_for g q) (in_group s.manager.resource_for g)
      s.workers (for_provider-le s.manager.resource_for g q)

-- The state after a worker's step, from the step's parts.
module _ (s : System) (i : ℕ) (w : Worker) (at : get_elem? s.workers i ≡ some w) (l' : Place)
    (m' : Manager) (rf : m'.resource_for ≡ s.manager.resource_for) where
  abbrev pub moved : System
  moved = record s { manager = m'; workers = set s.workers i (record w { place = l' }) }

  holders-moved :
      (g : Name)
      → holders moved g + in_group s.manager.resource_for g w
        ≡ holders s g + in_group s.manager.resource_for g (record w { place = l' })
  holders-moved g =
      rw rf
        (sum_by-set (in_group s.manager.resource_for g) s.workers i (record w { place = l' }) at)

  holders_for-moved :
      (g q : Name)
      → holders_for moved g q + for_provider s.manager.resource_for g q w
        ≡ holders_for s g q + for_provider s.manager.resource_for g q (record w { place = l' })
  holders_for-moved g q = rw rf (
      sum_by-set (for_provider s.manager.resource_for g q) s.workers i (record w { place = l' }) at)

  -- A group that the step does not enter or leave.
  unmoved-GroupOk :
      (g : Name) (st : ResourceState)
      → GroupOk s g st
      → (holds l' ≡ holds w.place) ⊎ (s.manager.resource_for w.provider ≢ g)
      → GroupOk moved g st
  unmoved-GroupOk g st old same = record {
    counted = ground (arith, old.counted, holders-moved g);
    owned = λ q ne. ground (arith, old.owned q ne, holders_for-moved g q);
  }

  taken-GroupOk :
      (g : Name) (st : ResourceState)
      → GroupOk s g st
      → s.manager.resource_for w.provider ≡ g
      → holds w.place ≡ false
      → holds l' ≡ true
      → (st.active_jobs ≡ 0) ⊎ (st.active_provider ≡ w.provider)
      → GroupOk moved g (taken_by w.provider st)
  taken-GroupOk g st old e h0 h1 free = record {
    counted = ground (arith, old.counted, holders-moved g);
    owned = λ q ne.
        ground (arith, old.counted, old.owned q, holders_for-le s g q, holders_for-moved g q);
  }

  left-GroupOk :
      (g : Name) (st : ResourceState) (now : ℕ)
      → GroupOk s g st
      → s.manager.resource_for w.provider ≡ g
      → holds w.place ≡ true
      → holds l' ≡ false
      → GroupOk moved g (release_state w.provider now st)
  unfolding release_state
  left-GroupOk g st now old e h0 h1 = record {
    counted = ground (
      arith,
      old.counted,
      holders-moved g,
      old.owned w.provider,
      sum_by-ge (in_group s.manager.resource_for g) s.workers i at,
      sum_by-ge (for_provider s.manager.resource_for g w.provider) s.workers i at,
    );
    owned = λ q ne. ground (
      arith,
      old.owned q,
      old.owned w.provider,
      holders_for-moved g q,
      sum_by-ge (for_provider s.manager.resource_for g w.provider) s.workers i at,
    );
  }

  -- A resource that the step wrote: it is the worker's own, or as before.
  written-GroupOk :
      (g : Name) (st0 new : ResourceState) (st : ResourceState)
      → IsExclusive s
      → g ≢ 0
      → GroupOk moved (s.manager.resource_for w.provider) new
      → update s.manager.resources (s.manager.resource_for w.provider) (some new) g ≡ some st
      → GroupOk moved g st
  written-GroupOk g st0 new st v gz own e =
      elim (Bool-cases (s.manager.resource_for w.provider == g)) [
        | inl same ↦
            subst (λ k. GroupOk moved k st) (==→eq _ _ same)
              (subst (GroupOk moved (s.manager.resource_for w.provider)) (ground arith) own)
        | inr other ↦ unmoved-GroupOk g st (v.groups g st gz (ground arith)) (inr (ground arith))
      ]

  moved-GroupOk :
      Effect w.provider w.place l' s.manager m'
      → IsExclusive s
      → (g : Name) (st : ResourceState) → g ≢ 0
      → m'.resources g ≡ some st
      → GroupOk moved g st
  moved-GroupOk (kept r h) v g st gz e =
      unmoved-GroupOk g st (v.groups g st gz (subst (λ f. f g ≡ some st) r e)) (inl h)
  moved-GroupOk (outside r z) v g st gz e =
      unmoved-GroupOk g st (v.groups g st gz (subst (λ f. f g ≡ some st) r e)) (inr (ground arith))
  moved-GroupOk (missing z n) v g st gz e = absurd (v.present w.provider z n)
  moved-GroupOk (acquired st0 z n h0 h1 free r) v g st gz e =
      written-GroupOk g st0 (taken_by w.provider st0) st v gz
        (taken-GroupOk _ st0 (v.groups _ st0 z n) refl h0 h1 free) (subst (λ f. f g ≡ some st) r e)
  moved-GroupOk (released st0 now z n h0 h1 r) v g st gz e =
      written-GroupOk g st0 (release_state w.provider now st0) st v gz
        (left-GroupOk _ st0 now (v.groups _ st0 z n) refl h0 h1) (subst (λ f. f g ≡ some st) r e)

  moved-present :
      Effect w.provider w.place l' s.manager m'
      → IsExclusive s
      → (p : Name) → s.manager.resource_for p ≢ 0
      → m'.resources (s.manager.resource_for p) ≢ none
  moved-present (kept r h) v p pz e =
      v.present p pz (subst (λ f. f (s.manager.resource_for p) ≡ none) r e)
  moved-present (outside r z) v p pz e =
      v.present p pz (subst (λ f. f (s.manager.resource_for p) ≡ none) r e)
  moved-present (missing z n) v p pz e = v.present w.provider z n
  moved-present (acquired st0 z n h0 h1 free r) v p pz e =
      let e' : update s.manager.resources (s.manager.resource_for w.provider)
            (some (taken_by w.provider st0)) (s.manager.resource_for p)
          ≡ none =
        subst (λ f. f (s.manager.resource_for p) ≡ none) r e in
      ground (arith, v.present p pz)
  moved-present (released st0 now z n h0 h1 r) v p pz e =
      let e' : update s.manager.resources (s.manager.resource_for w.provider)
            (some (release_state w.provider now st0)) (s.manager.resource_for p)
          ≡ none =
        subst (λ f. f (s.manager.resource_for p) ≡ none) r e in
      ground (arith, v.present p pz)

  pub moved-IsExclusive :
      Effect w.provider w.place l' s.manager m' → IsExclusive s → IsExclusive moved
  moved-IsExclusive x v = record {
    groups = moved-GroupOk x v;
    present = λ p pz e. moved-present x v p (rw (← rf) pz) (rw (← rf) e);
  }
