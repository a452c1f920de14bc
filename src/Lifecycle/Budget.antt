-- ===== src/Lifecycle/Budget.antt =====
-- makeRoomLocked of internal/lifecycle/lifecycle.go keeps the estimates within the budget.
use audio_server.Common.{
  ℕ, zero, suc, ◌+◌, ◌≤◌, ◌<◌, ◌≡◌, ◌≢◌, inl, inr, refl, ltb, true, false, Option, none, some,
  arith, List, [], ◌∷◌, get_elem?, set, sum_by-set, All, Bool-cases, subst, sym, if_both,
}
use audio_server.Lifecycle.Types.{Name, Instance, stop, is_evictable}
use audio_server.Lifecycle.Room.{
  Resident, Progress, Meter, measure, counts_as_resident, residents_from, resident_size, estimate,
  insert_by_last, sort_by_last, evict_one, evict_loop, make_room,
}

-- Name and size at an index: stopping an instance changes neither.
abbrev facts : Option Instance → Option (Name × ℕ)
facts none = none
facts (some i) = some (i.name, i.vram_mib)

facts-set :
    (is : List Instance) (k a : ℕ) {i : Instance}
    → get_elem? is k ≡ some i
    → facts (get_elem? (set is k (stop i)) a) ≡ facts (get_elem? is a)
facts-set [] k a e = refl
facts-set (i ∷ is) zero zero e = ground arith
facts-set (i ∷ is) zero (suc a) e = refl
facts-set (i ∷ is) (suc k) zero e = refl
facts-set (i ∷ is) (suc k) (suc a) e = facts-set is k a e

-- The candidate is what its index says, and not the requested model.
abbrev IsTrue : Name → Resident → Option (Name × ℕ) → Type 0
IsTrue requested r none = Unit
IsTrue requested r (some (n, size)) = (n ≢ requested) × (size ≡ r.used)

abbrev AreTrue : Name → List Instance → List Resident → Type 0
AreTrue requested is = All (λ r. IsTrue requested r (facts (get_elem? is r.at)))

AreTrue-set :
    (requested : Name) (is : List Instance) (k : ℕ) {i : Instance} (rs : List Resident)
    → get_elem? is k ≡ some i
    → AreTrue requested is rs
    → AreTrue requested (set is k (stop i)) rs
AreTrue-set requested is k [] e h = tt
AreTrue-set requested is k (r ∷ rs) e h = (
  subst (IsTrue requested r) (sym (facts-set is k r.at e)) h.0,
  AreTrue-set requested is k rs e h.1,
)

AreTrue-insert :
    (requested : Name) (is : List Instance) (r : Resident) (rs : List Resident)
    → IsTrue requested r (facts (get_elem? is r.at))
    → AreTrue requested is rs
    → AreTrue requested is (insert_by_last r rs)
unfolding insert_by_last
AreTrue-insert requested is r [] h hs = (h, tt)
AreTrue-insert requested is r (s ∷ ss) h hs =
    if_both (AreTrue requested is) (ltb s.last r.last) (s ∷ insert_by_last r ss) (r ∷ s ∷ ss)
      (hs.0, AreTrue-insert requested is r ss h hs.1) (h, hs)

AreTrue-sort :
    (requested : Name) (is : List Instance) (rs : List Resident)
    → AreTrue requested is rs
    → AreTrue requested is (sort_by_last rs)
unfolding sort_by_last
AreTrue-sort requested is [] h = tt
AreTrue-sort requested is (r ∷ rs) h =
    AreTrue-insert requested is r (sort_by_last rs) h.0 (AreTrue-sort requested is rs h.1)

-- The residents found in a part of the list, which begins at index `k`.
residents-AreTrue :
    (requested : Name) (all : List Instance) (k : ℕ) (is : List Instance)
    → ((a : ℕ) → get_elem? all (k + a) ≡ get_elem? is a)
    → AreTrue requested all (residents_from requested k is)
unfolding residents_from
residents-AreTrue requested all k [] h = tt
residents-AreTrue requested all k (i ∷ is) h =
    let e : k + 0 ≡ k = omega arith in
    let head : get_elem? all k ≡ some i = subst (λ t. get_elem? all t ≡ some i) e (h 0) in
    let rest =
      residents-AreTrue requested all (suc k) is
        (λ a. let e' : suc k + a ≡ k + suc a = omega arith in rw e' (h (suc a))) in
    elim (Bool-cases (counts_as_resident requested i)) [
      | inl c ↦ rw c (rw head (ground arith, refl), rest)
      | inr c ↦ rw c rest
    ]

-- One candidate: the estimates stay within `used`, and the candidates stay true.
record Within (requested : Name) (rs : List Resident) (g : Progress) : Type 0 where
  bound : estimate requested g.instances ≤ g.used
  candidates : AreTrue requested g.instances rs

evict_one-Within :
    (requested : Name) (r : Resident) (rs : List Resident) (g : Progress) (o : Option Instance)
    → get_elem? g.instances r.at ≡ o
    → IsTrue requested r (facts o)
    → Within requested rs g
    → Within requested rs (evict_one false r o g)
unfolding evict_one measure
evict_one-Within requested r rs g none e t w = record { bound = w.bound; candidates = w.candidates }
evict_one-Within requested r rs g (some i) e t w = elim (Bool-cases (is_evictable i)) [
  | inl h ↦ rw h (record {
    bound =
        ground (arith, w.bound, sum_by-set (resident_size requested) g.instances r.at (stop i) e);
    candidates = AreTrue-set requested g.instances r.at rs e w.candidates;
  })
  | inr h ↦ rw h (record { bound = w.bound; candidates = w.candidates })
]

-- If the loop finds room, the estimates of what is left fit beside the request.
evict_loop-fits :
    (max required : ℕ) (requested : Name) (rs : List Resident) (g : Progress)
    → Within requested rs g
    → (evict_loop max required false rs g).1 ≡ true
    → estimate requested (evict_loop max required false rs g).0.instances + required ≤ max
unfolding evict_loop
evict_loop-fits max required requested [] g w h = cc
evict_loop-fits max required requested (r ∷ rs) g w h =
    ground (arith, one.bound, evict_loop-fits max required requested rs g' one)
  where
    g' : Progress
    g' = evict_one false r (get_elem? g.instances r.at) g

    one : Within requested rs g'
    one =
        evict_one-Within requested r rs g _ refl w.candidates.0
          (record { bound = w.bound; candidates = w.candidates.1 })

-- Without a meter, if makeRoomLocked finds room for a request under a budget that is set, then the
-- estimates of the models left running, other than the requested one, and the request's fit in the
-- budget.
pub make_room-fits :
    (max : ℕ) (requested : Name) (required : ℕ) (meter : Meter) (is : List Instance)
    → 0 < max
    → 0 < required
    → (make_room max false requested required meter is).2 ≡ none
    → estimate requested (make_room max false requested required meter is).0 + required ≤ max
unfolding make_room measure
make_room-fits max requested required meter is m r h =
    ground (arith, evict_loop-fits max required requested candidates start begun)
  where
    candidates : List Resident
    candidates = sort_by_last (residents_from requested 0 is)

    start : Progress
    start = record { instances = is; used = estimate requested is; meter = meter; stopped = false }

    begun : Within requested candidates start
    begun = record {
      bound = omega arith;
      candidates =
          AreTrue-sort requested is (residents_from requested 0 is) (
            residents-AreTrue requested is 0 is
              (λ a. let e : 0 + a ≡ a = omega arith in rw e refl));
    }
