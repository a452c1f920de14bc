-- ===== src/Lifecycle/Oldest.antt =====
-- evictOldestIdleLocked of internal/lifecycle/lifecycle.go picks the least recently used candidate.
use audio_server.Common.{
  ℕ, zero, suc, ◌-◌, ◌≤◌, ◌==◌, ◌≡◌, ◌⊎◌, inl, inr, refl, ◌&&◌, not, Bool, true, false, Option,
  none, some, arith, List, [], ◌∷◌, get_elem?, set, All,
}
use audio_server.Lifecycle.Types.{Name, Instance, stop, is_evictable}
use audio_server.Lifecycle.Room.{better, stop_at, stop_found, oldest_from, evict_oldest_idle}

abbrev pub is_candidate : Name → Instance → Bool
is_candidate exclude i = is_evictable i && not (i.name == exclude)

-- No candidate of the list was used before `last`.
abbrev pub NoneBefore : Name → ℕ → List Instance → Type 0
NoneBefore exclude last = All (λ x. is_candidate exclude x ≡ true → last ≤ x.last_used)

abbrev pub NoCandidate : Name → List Instance → Type 0
NoCandidate exclude = All (λ x. is_candidate exclude x ≡ false)

abbrev Low : Option (ℕ × ℕ) → ℕ → Type 0
Low none last = Unit
Low (some (at, l)) last = last ≤ l

better-Low :
    (exclude : Name) (k : ℕ) (i : Instance) (best : Option (ℕ × ℕ)) (last : ℕ)
    → Low (better exclude k i best) last
    → Low best last × (is_candidate exclude i ≡ true → last ≤ i.last_used)
better-Low exclude k i none last h = (tt, λ c. ground arith)
better-Low exclude k i (some (at, l)) last h = (ground arith, λ c. ground arith)

oldest_from-NoneBefore :
    (exclude : Name) (k : ℕ) (is : List Instance) (best : Option (ℕ × ℕ)) (at last : ℕ)
    → oldest_from exclude k is best ≡ some (at, last)
    → Low best last × NoneBefore exclude last is
unfolding oldest_from
oldest_from-NoneBefore exclude k [] none at last e = cc
oldest_from-NoneBefore exclude k [] (some (a, l)) at last e = (ground arith, tt)
oldest_from-NoneBefore exclude k (i ∷ is) best at last e =
    let ih = oldest_from-NoneBefore exclude (suc k) is (better exclude k i best) at last e in
    let b = better-Low exclude k i best last ih.0 in (b.0, (b.1, ih.1))

oldest_from-NoCandidate :
    (exclude : Name) (k : ℕ) (is : List Instance) (best : Option (ℕ × ℕ))
    → oldest_from exclude k is best ≡ none
    → (best ≡ none) × NoCandidate exclude is
unfolding oldest_from
oldest_from-NoCandidate exclude k [] best e = (e, tt)
oldest_from-NoCandidate exclude k (i ∷ is) none e =
    let ih = oldest_from-NoCandidate exclude (suc k) is (better exclude k i none) e in
    (refl, (ground (arith, ih.0), ih.1))
oldest_from-NoCandidate exclude k (i ∷ is) (some (a, l)) e =
    let ih = oldest_from-NoCandidate exclude (suc k) is (better exclude k i (some (a, l))) e in
    absurd (ground (arith, ih.0))

-- A candidate of the list, `k` places further on, with its last use.
pub record IsAt (exclude : Name) (k at last : ℕ) (is : List Instance) (i : Instance) : Type 0 where
  pub later : k ≤ at
  pub here : get_elem? is (at - k) ≡ some i
  pub candidate : is_candidate exclude i ≡ true
  pub used : i.last_used ≡ last

better-cases :
    (exclude : Name) (k : ℕ) (i : Instance) (best : Option (ℕ × ℕ)) (at last : ℕ)
    → better exclude k i best ≡ some (at, last)
    → (best ≡ some (at, last)) ⊎ ((k ≡ at) × (is_candidate exclude i ≡ true) × (i.last_used ≡ last))
better-cases exclude k i none at last e = ground arith
better-cases exclude k i (some (a, l)) at last e = ground arith

better-IsAt :
    (exclude : Name) (k : ℕ) (i : Instance) (is : List Instance) (best : Option (ℕ × ℕ))
    (at last : ℕ)
    → better exclude k i best ≡ some (at, last)
    → (best ≡ some (at, last)) ⊎ IsAt exclude k at last (i ∷ is) i
better-IsAt exclude k i is best at last e = elim (better-cases exclude k i best at last e) [
  | inl b ↦ inl b
  | inr (a, c, u) ↦
      let z : at - k ≡ zero = omega arith in
      inr (record { later = omega arith; here = rw z refl; candidate = c; used = u })
]

oldest_from-IsAt :
    (exclude : Name) (k : ℕ) (is : List Instance) (best : Option (ℕ × ℕ)) (at last : ℕ)
    → oldest_from exclude k is best ≡ some (at, last)
    → (best ≡ some (at, last)) ⊎ ((i : Instance) × IsAt exclude k at last is i)
unfolding oldest_from
oldest_from-IsAt exclude k [] best at last e = inl e
oldest_from-IsAt exclude k (i ∷ is) best at last e =
    elim (oldest_from-IsAt exclude (suc k) is (better exclude k i best) at last e) [
      | inl b ↦ elim (better-IsAt exclude k i is best at last b) [
        | inl c ↦ inl c
        | inr c ↦ inr (i, c)
      ]
      | inr (j, a) ↦
          let next : at - k ≡ suc (at - suc k) = omega (arith, a.later) in
          inr (
            j,
            record {
              later = omega (arith, a.later);
              here = rw next a.here;
              candidate = a.candidate;
              used = a.used;
            },
          )
    ]

-- The instance that an eviction stopped, at an index.
pub record IsOldest (exclude : Name) (is is' : List Instance) (at : ℕ) (i : Instance) : Type 0 where
  pub here : get_elem? is at ≡ some i
  pub candidate : is_candidate exclude i ≡ true
  pub stopped : is' ≡ set is at (stop i)
  pub oldest : NoneBefore exclude i.last_used is

abbrev pub Evicted : Name → List Instance → List Instance × Bool → Type 0
Evicted exclude is r =
    ((at : ℕ) × (i : Instance) × IsOldest exclude is r.0 at i × (r.1 ≡ true))
    ⊎ (NoCandidate exclude is × (r.0 ≡ is) × (r.1 ≡ false))

stop_at-candidate :
    (at : ℕ) (i : Instance) (is : List Instance)
    → is_evictable i ≡ true
    → stop_at at (some i) is ≡ (set is at (stop i), true)
unfolding stop_at
stop_at-candidate at i is h = rw h

found-Evicted :
    (exclude : Name) (is : List Instance) (o : Option (ℕ × ℕ))
    → oldest_from exclude 0 is none ≡ o
    → Evicted exclude is (stop_found is o)
unfolding stop_found
found-Evicted exclude is none e = inr ((oldest_from-NoCandidate exclude 0 is none e).1, refl, refl)
found-Evicted exclude is (some (at, last)) e = elim (oldest_from-IsAt exclude 0 is none at last e) [
  | inl b ↦ cc
  | inr (i, a) ↦
      let here : get_elem? is at ≡ some i = let z : at - 0 ≡ at = omega arith in rw z at a.here in
      let stops : stop_at at (get_elem? is at) is ≡ (set is at (stop i), true) =
        rw here (stop_at-candidate at i is (ground (arith, a.candidate))) in
      rw stops (
        inl (
          at,
          i,
          record {
            here = here;
            candidate = a.candidate;
            stopped = refl;
            oldest = rw a.used (oldest_from-NoneBefore exclude 0 is none at last e).1;
          },
          refl,
        ))
]

-- evictOldestIdleLocked either stops one idle running instance other than the excluded one, which
-- was used no later than any other such instance, and reports it; or there is none such, and it
-- changes nothing and reports that.
pub evict_oldest_idle-Evicted :
    (exclude : Name) (is : List Instance) → Evicted exclude is (evict_oldest_idle exclude is)
unfolding evict_oldest_idle
evict_oldest_idle-Evicted exclude is = found-Evicted exclude is _ refl
