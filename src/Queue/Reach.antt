-- ===== src/Queue/Reach.antt =====
-- Every state that internal/queue/queue.go reaches from NewManager keeps the shared resources in
-- order, so that the providers of one group exclude one another.
use audio_server.Common.{
  sym, ◌∙◌, subst, ℕ, zero, suc, ◌==◌, ◌≡◌, ◌≢◌, inl, inr, refl, true, Option, none, some, arith,
  Option-cases, if◌then◌else◌, List, [], ◌∷◌, sum_by, sum_by-ge, sum_by-append, get_elem?,
}
use audio_server.Queue.Types.{Name, Manager, ResourceState}
use audio_server.Queue.Worker.{Worker, waiting, Env, advance}
use audio_server.Queue.System.{
  System, Config, ProviderConfig, Event, step, run, works, work, bare_manager, add_providers,
  add_group, add_groups, spawn, spawn_all, new_manager,
}
use audio_server.Queue.Effect.{holds, advance-Effect, advance-resource_for}
use audio_server.Queue.Exclusion.{for_provider, GroupOk, IsExclusive, moved-IsExclusive}

work-IsExclusive :
    (i : ℕ) (env : Env) (s : System) (o : Option Worker)
    → get_elem? s.workers i ≡ o
    → IsExclusive s
    → IsExclusive (work i env o s)
unfolding work
work-IsExclusive i env s none e v = v
work-IsExclusive i env s (some w) e v =
    moved-IsExclusive s i w e (advance w.place env w.provider s.manager).0
      (advance w.place env w.provider s.manager).1
      (advance-resource_for w.place env w.provider s.manager)
      (advance-Effect w.place env w.provider s.manager) v

-- The invariant reads three fields.
record Frame (s t : System) : Type 0 where
  workers : t.workers ≡ s.workers
  resources : t.manager.resources ≡ s.manager.resources
  resource_for : t.manager.resource_for ≡ s.manager.resource_for

Frame-IsExclusive : (s t : System) → Frame s t → IsExclusive s → IsExclusive t
Frame-IsExclusive s t f v = record {
  groups = λ g st gz e.
      let old : GroupOk s g st = v.groups g st gz (subst (λ r. r g ≡ some st) f.resources e) in
      record {
        counted = rw (f.workers, f.resource_for) old.counted;
        owned = λ q ne. rw (f.workers, f.resource_for) (old.owned q ne);
      };
  present =
      λ p pz e. v.present p (rw (← f.resource_for) pz) (rw (← f.resources, ← f.resource_for) e);
}

pub step-IsExclusive : (e : Event) (s : System) → IsExclusive s → IsExclusive (step e s)
unfolding step
step-IsExclusive (works i env) s v = work-IsExclusive i env s _ refl v
step-IsExclusive e s v =
    Frame-IsExclusive s (step e s)
      (record { workers = ground arith; resources = ground arith; resource_for = ground arith }) v

run-IsExclusive : (es : List Event) (s : System) → IsExclusive s → IsExclusive (run es s)
unfolding run
run-IsExclusive [] s v = v
run-IsExclusive (e ∷ es) s v = run-IsExclusive es (step e s) (step-IsExclusive e s v)

-- NewManager's workers all wait.
sum_by-spawn :
    (f : Worker → ℕ)
    → ((p : Name) → f (record { provider = p; place = waiting }) ≡ 0)
    → (n : ℕ) (p : Name) → sum_by f (spawn n p) ≡ 0
unfolding spawn
sum_by-spawn f z zero p = refl
sum_by-spawn f z (suc n) p = omega (arith, z p, sum_by-spawn f z n p)

pub sum_by-spawn_all :
    (f : Worker → ℕ)
    → ((p : Name) → f (record { provider = p; place = waiting }) ≡ 0)
    → (cs : List ProviderConfig) → sum_by f (spawn_all cs) ≡ 0
unfolding spawn_all
sum_by-spawn_all f z [] = refl
sum_by-spawn_all f z (c ∷ cs) =
    let n : ℕ = if c.workers == 0 then 1 else c.workers in
    omega (
      arith,
      sum_by-append f (spawn n c.id) (spawn_all cs),
      sum_by-spawn f z n c.id,
      sum_by-spawn_all f z cs,
    )

-- What NewManager's loops over the configuration keep of the resources.
record AreFresh (m : Manager) : Type 0 where
  unused : (g : Name) (st : ResourceState) → m.resources g ≡ some st → st.active_jobs ≡ 0
  present : (p : Name) → m.resource_for p ≢ 0 → m.resources (m.resource_for p) ≢ none

bare-AreFresh : (cfg : Config) → AreFresh (bare_manager cfg)
unfolding bare_manager
bare-AreFresh cfg = record { unused = λ g st e. cc; present = λ p z e. z refl }

add_providers-AreFresh :
    (cs : List ProviderConfig) (m : Manager) → AreFresh m → AreFresh (add_providers cs m)
unfolding add_providers
add_providers-AreFresh [] m v = v
add_providers-AreFresh (c ∷ cs) m v =
    add_providers-AreFresh cs _ (record { unused = v.unused; present = v.present })

add_group-AreFresh :
    (cfg : Config) (p g : Name) (m : Manager) → AreFresh m → AreFresh (add_group cfg p g m)
unfolding add_group
add_group-AreFresh cfg p g m v = record {
  unused = λ h st e. ground (arith, v.unused h st);
  present = λ q z e. ground (arith, v.present q);
}

add_groups-AreFresh :
    (cfg : Config) (gs : List (Name × Name)) (m : Manager)
    → AreFresh m
    → AreFresh (add_groups cfg gs m)
unfolding add_groups
add_groups-AreFresh cfg [] m v = v
add_groups-AreFresh cfg ((p, g) ∷ rest) m v =
    add_groups-AreFresh cfg rest (add_group cfg p g m) (add_group-AreFresh cfg p g m v)

pub new_manager-IsExclusive : (cfg : Config) → IsExclusive (new_manager cfg)
unfolding new_manager
new_manager-IsExclusive cfg = record {
  groups = λ g st gz e. record {
    counted = fresh.unused g st e ∙ sym (sum_by-spawn_all _ (λ p. refl) cfg.providers);
    owned = λ q ne. sum_by-spawn_all _ (λ p. ground arith) cfg.providers;
  };
  present = fresh.present;
}
  where
    fresh :
        AreFresh
          (add_groups cfg cfg.resource_groups (add_providers cfg.providers (bare_manager cfg)))
    fresh =
        add_groups-AreFresh cfg cfg.resource_groups (add_providers cfg.providers (bare_manager cfg))
          (add_providers-AreFresh cfg.providers (bare_manager cfg) (bare-AreFresh cfg))

-- In every state that NewManager and any events lead to, the counter of a resource group is the
-- number of workers that hold the group, and these all work for the group's active provider; and
-- each provider's group has a resource.
pub run-IsExclusive_new : (cfg : Config) (es : List Event) → IsExclusive (run es (new_manager cfg))
run-IsExclusive_new cfg es = run-IsExclusive es (new_manager cfg) (new_manager-IsExclusive cfg)

holder-is_active :
    (s : System) (i : ℕ) {w : Worker} (st : ResourceState)
    → IsExclusive s
    → get_elem? s.workers i ≡ some w
    → holds w.place ≡ true
    → s.manager.resource_for w.provider ≢ 0
    → s.manager.resources (s.manager.resource_for w.provider) ≡ some st
    → w.provider ≡ st.active_provider
holder-is_active s i {w} st v at h z e = ground (
  arith,
  (v.groups (s.manager.resource_for w.provider) st z e).owned w.provider,
  sum_by-ge (for_provider s.manager.resource_for (s.manager.resource_for w.provider) w.provider)
      s.workers i at,
)

holders_agree :
    (s : System) (i j : ℕ) {w x : Worker}
    → IsExclusive s
    → get_elem? s.workers i ≡ some w
    → get_elem? s.workers j ≡ some x
    → holds w.place ≡ true
    → holds x.place ≡ true
    → s.manager.resource_for w.provider ≢ 0
    → s.manager.resource_for w.provider ≡ s.manager.resource_for x.provider
    → w.provider ≡ x.provider
holders_agree s i j {w} {x} v ati atj hw hx z e =
    elim (Option-cases (s.manager.resources (s.manager.resource_for w.provider))) [
      | inl n ↦ absurd (v.present w.provider z n)
      | inr (st, n) ↦
          holder-is_active s i st v ati hw z n
          ∙ sym (holder-is_active s j st v atj hx (rw (← e) z) (rw (← e) n))
    ]

-- After any events, two workers that hold the same resource group (that is, that stand between
-- acquireResource and the end of releaseResource, a synthesis included) work for one provider.
pub exclusive_use :
    (cfg : Config) (es : List Event) (i j : ℕ) {w x : Worker}
    → get_elem? (run es (new_manager cfg)).workers i ≡ some w
    → get_elem? (run es (new_manager cfg)).workers j ≡ some x
    → holds w.place ≡ true
    → holds x.place ≡ true
    → (run es (new_manager cfg)).manager.resource_for w.provider ≢ 0
    → (run es (new_manager cfg)).manager.resource_for w.provider
      ≡ (run es (new_manager cfg)).manager.resource_for x.provider
    → w.provider ≡ x.provider
exclusive_use cfg es i j = holders_agree (run es (new_manager cfg)) i j (run-IsExclusive_new cfg es)
