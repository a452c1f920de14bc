-- ===== src/Lifecycle/Spare.antt =====
-- The evictions of internal/lifecycle/lifecycle.go stop idle instances only.
use audio_server.Common.{
  ℕ, zero, suc, ◌-◌, ◌+◌, ◌==◌, ◌≡◌, ◌⊎◌, inl, inr, refl, ltb, leb, ◌&&◌, ◌||◌, not, Bool, true,
  false, Option, none, some, arith, List, [], ◌∷◌, get_elem?, set, Bool-cases, if_both,
}
use audio_server.Lifecycle.Types.{Name, Instance, Error, stop, is_evictable}
use audio_server.Lifecycle.Room.{
  Meter, Resident, Progress, measure, evict_one, evict_loop, residents_from, sort_by_last,
  make_room, estimate, stop_at, stop_found, oldest_from, evict_oldest_idle,
}
use audio_server.Lifecycle.Start.{stop_others}
use audio_server.Lifecycle.Calls.{idle_tick}

-- The same instances, of which some idle ones are stopped.
abbrev pub Spares : List Instance → List Instance → Type 0
Spares [] [] = Unit
Spares [] (j ∷ js) = ⊥
Spares (i ∷ is) [] = ⊥
Spares (i ∷ is) (j ∷ js) = ((j ≡ i) ⊎ ((j ≡ stop i) × (i.active ≡ 0))) × Spares is js

pub Spares-refl : (is : List Instance) → Spares is is
Spares-refl [] = tt
Spares-refl (i ∷ is) = (inl refl, Spares-refl is)

pub Spares-trans : (is js ks : List Instance) → Spares is js → Spares js ks → Spares is ks
Spares-trans [] [] ks a b = b
Spares-trans [] (j ∷ js) ks a b = absurd a
Spares-trans (i ∷ is) [] ks a b = absurd a
Spares-trans (i ∷ is) (j ∷ js) [] a b = absurd b
Spares-trans (i ∷ is) (j ∷ js) (k ∷ ks) a b =
    (ground (arith, a.0, b.0), Spares-trans is js ks a.1 b.1)

pub Spares-set :
    (is : List Instance) (k : ℕ) {i : Instance}
    → get_elem? is k ≡ some i
    → i.active ≡ 0
    → Spares is (set is k (stop i))
Spares-set [] k e a = tt
Spares-set (i ∷ is) zero e a = (inr (ground arith, ground arith), Spares-refl is)
Spares-set (i ∷ is) (suc k) e a = (inl refl, Spares-set is k e a)

evict_one-Spares :
    (has_meter : Bool) (r : Resident) (o : Option Instance) (g : Progress)
    → get_elem? g.instances r.at ≡ o
    → Spares g.instances (evict_one has_meter r o g).instances
unfolding evict_one
evict_one-Spares has_meter r none g e = Spares-refl g.instances
evict_one-Spares has_meter r (some i) g e = elim (Bool-cases (is_evictable i)) [
  | inl h ↦ rw h (Spares-set g.instances r.at e (ground arith))
  | inr h ↦ rw h (Spares-refl g.instances)
]

evict_loop-Spares :
    (max required : ℕ) (has_meter : Bool) (rs : List Resident) (g : Progress)
    → Spares g.instances (evict_loop max required has_meter rs g).0.instances
unfolding evict_loop
evict_loop-Spares max required has_meter [] g = Spares-refl g.instances
evict_loop-Spares max required has_meter (r ∷ rs) g =
    if_both (λ (o : Progress × Bool). Spares g.instances o.0.instances)
      (g'.stopped && leb (g'.used + required) max) (g', true)
      (evict_loop max required has_meter rs g') one
      (Spares-trans g.instances g'.instances _ one (evict_loop-Spares max required has_meter rs g'))
  where
    g' : Progress
    g' = evict_one has_meter r (get_elem? g.instances r.at) g

    one : Spares g.instances g'.instances
    one = evict_one-Spares has_meter r _ g refl

-- On every branch makeRoomLocked leaves all instances as they were, but that it may stop instances
-- with no request in flight.
pub make_room-Spares :
    (max : ℕ) (has_meter : Bool) (requested : Name) (required : ℕ) (meter : Meter)
    (is : List Instance)
    → Spares is (make_room max has_meter requested required meter is).0
unfolding make_room
make_room-Spares max has_meter requested required meter is =
    if_both Kept ((max == 0) || (required == 0)) _ _ (Spares-refl is) (
      if_both Kept (ltb max required) _ _ (Spares-refl is) (
        if_both Kept (leb ((measure has_meter meter (estimate requested is)).0 + required) max) _ _
          (Spares-refl is)
          (evict_loop-Spares max required has_meter (sort_by_last (residents_from requested 0 is))
            (record {
              instances = is;
              used = (measure has_meter meter (estimate requested is)).0;
              meter = (measure has_meter meter (estimate requested is)).1;
              stopped = false;
            }))))
  where
    Kept : List Instance × Meter × Option Error → Type 0
    Kept o = Spares is o.0

stop_at-Spares :
    (k : ℕ) (o : Option Instance) (is : List Instance)
    → get_elem? is k ≡ o
    → Spares is (stop_at k o is).0
unfolding stop_at
stop_at-Spares k none is e = Spares-refl is
stop_at-Spares k (some i) is e = elim (Bool-cases (is_evictable i)) [
  | inl h ↦ rw h (Spares-set is k e (ground arith))
  | inr h ↦ rw h (Spares-refl is)
]

stop_found-Spares : (is : List Instance) (o : Option (ℕ × ℕ)) → Spares is (stop_found is o).0
unfolding stop_found
stop_found-Spares is none = Spares-refl is
stop_found-Spares is (some (k, last)) = stop_at-Spares k _ is refl

pub evict_oldest_idle-Spares :
    (exclude : Name) (is : List Instance) → Spares is (evict_oldest_idle exclude is).0
unfolding evict_oldest_idle
evict_oldest_idle-Spares exclude is = stop_found-Spares is (oldest_from exclude 0 is none)

pub stop_others-Spares : (exclude : Name) (is : List Instance) → Spares is (stop_others exclude is)
unfolding stop_others
stop_others-Spares exclude [] = tt
stop_others-Spares exclude (i ∷ is) = (ground arith, stop_others-Spares exclude is)

pub idle_tick-Spares :
    (k now : ℕ) (o : Option Instance) (is : List Instance)
    → get_elem? is k ≡ o
    → Spares is (idle_tick k now o is)
unfolding idle_tick
idle_tick-Spares k now none is e = Spares-refl is
idle_tick-Spares k now (some i) is e = elim (Bool-cases tick) [
  | inl h ↦ rw h (Spares-set is k e (ground arith))
  | inr h ↦ rw h (Spares-refl is)
]
  where
    tick : Bool
    tick =
        i.watcher_started
        && not i.stop_closed
        && is_evictable i
        && ltb i.idle_timeout (now - i.last_used)
