-- ===== src/Lifecycle/Moves.antt =====
-- What the starts of internal/lifecycle/lifecycle.go leave to the other instances.
use audio_server.Common.{
  ℕ, ◌+◌, ◌==◌, ◌≡◌, ◌≢◌, ◌⊎◌, inl, inr, refl, ◌∙◌, true, Option, none, some, arith, List, [], ◌∷◌,
  sum_by, Bool-cases,
}
use audio_server.Lifecycle.Types.{Name, Instance, stop, lookup, modify}
use audio_server.Lifecycle.Spare.{Spares}

abbrev pub requests : Instance → ℕ
requests i = i.active

-- The requests in flight over all instances.
abbrev pub total : List Instance → ℕ
total = sum_by requests

abbrev pub requests_at : Option Instance → ℕ
requests_at none = 0
requests_at (some i) = i.active

abbrev pub change {ℓ} : {A : Type ℓ} → (A → A) → Option A → Option A
change f none = none
change f (some i) = some (f i)

-- An acquired instance: running, with one request.
abbrev pub Held : Option Instance → Type 0
Held none = ⊥
Held (some i) = (i.active ≡ 1) × (i.running ≡ true)

abbrev pub IsRunning : Option Instance → Type 0
IsRunning none = ⊥
IsRunning (some i) = i.running ≡ true

pub total-modify :
    (n : Name) (f : Instance → Instance) (is : List Instance)
    → total (modify n f is) + requests_at (lookup n is)
      ≡ total is + requests_at (change f (lookup n is))
unfolding lookup modify
total-modify n f [] = omega arith
total-modify n f (i ∷ is) = ground (arith, total-modify n f is)

module _ (n : Name) (f : Instance → Instance) (named : (i : Instance) → (f i).name ≡ i.name) where
  pub lookup-modify_self : (is : List Instance) → lookup n (modify n f is) ≡ change f (lookup n is)
  unfolding lookup modify
  lookup-modify_self [] = refl
  lookup-modify_self (i ∷ is) = ground (arith, lookup-modify_self is, named i)

  pub lookup-modify_ne :
      (k : Name) (is : List Instance) → n ≢ k → lookup k (modify n f is) ≡ lookup k is
  unfolding lookup modify
  lookup-modify_ne k [] h = refl
  lookup-modify_ne k (i ∷ is) h = ground (arith, lookup-modify_ne k is h, named i)

-- The requests stay, and so does what is held under a name other than `n`.
pub record Moves (n : Name) (is js : List Instance) : Type 0 where
  pub same_total : total js ≡ total is
  pub keeps : (k : Name) → n ≢ k → Held (lookup k is) → Held (lookup k js)
  pub known : lookup n is ≢ none → lookup n js ≢ none

pub Moves-refl : (n : Name) (is : List Instance) → Moves n is is
Moves-refl n is = record { same_total = refl; keeps = λ k h x. x; known = λ h. h }

pub Moves-trans :
    (n : Name) (is js ks : List Instance) → Moves n is js → Moves n js ks → Moves n is ks
Moves-trans n is js ks a b = record {
  same_total = b.same_total ∙ a.same_total;
  keeps = λ k h x. b.keeps k h (a.keeps k h x);
  known = λ h. b.known (a.known h);
}

pub Spares-total : (is js : List Instance) → Spares is js → total js ≡ total is
Spares-total [] [] s = refl
Spares-total [] (j ∷ js) s = absurd s
Spares-total (i ∷ is) [] s = absurd s
Spares-total (i ∷ is) (j ∷ js) s = ground (arith, s.0, Spares-total is js s.1)

idle-not-Held : (i : Instance) → i.active ≡ 0 → Held (some i) → ⊥
idle-not-Held i z h = omega arith

-- What a name finds after an eviction: the same, or the instance stopped with no request.
Spares-lookup :
    (k : Name) (is js : List Instance)
    → Spares is js
    → (lookup k js ≡ lookup k is)
      ⊎ ((i : Instance) × (lookup k is ≡ some i) × (i.active ≡ 0) × (lookup k js ≡ some (stop i)))
unfolding lookup
Spares-lookup k [] [] s = inl refl
Spares-lookup k [] (j ∷ js) s = absurd s
Spares-lookup k (i ∷ is) [] s = absurd s
Spares-lookup k (i ∷ is) (j ∷ js) (inl e, s) = elim (Spares-lookup k is js s) [
  | inl q ↦ inl (ground arith)
  | inr (x, a, b, c) ↦ elim (Bool-cases (i.name == k)) [
    | inl h ↦ inl (ground arith)
    | inr h ↦ inr (x, ground arith, b, ground arith)
  ]
]
Spares-lookup k (i ∷ is) (j ∷ js) (inr (e, z), s) = elim (Bool-cases (i.name == k)) [
  | inl h ↦ inr (i, ground arith, z, ground arith)
  | inr h ↦ elim (Spares-lookup k is js s) [
    | inl q ↦ inl (ground arith)
    | inr (x, a, b, c) ↦ inr (x, ground arith, b, ground arith)
  ]
]

pub Spares-Held :
    (k : Name) (is js : List Instance) → Spares is js → Held (lookup k is) → Held (lookup k js)
Spares-Held k is js s h = elim (Spares-lookup k is js s) [
  | inl q ↦ rw q h
  | inr (i, a, z, c) ↦ absurd (idle-not-Held i z (rw a at h))
]

Spares-known :
    (k : Name) (is js : List Instance) → Spares is js → lookup k is ≢ none → lookup k js ≢ none
unfolding lookup
Spares-known k [] [] s h = h
Spares-known k [] (j ∷ js) s h = absurd s
Spares-known k (i ∷ is) [] s h = absurd s
Spares-known k (i ∷ is) (j ∷ js) s h = ground (arith, s.0, Spares-known k is js s.1)

pub Spares-Moves : (n : Name) (is js : List Instance) → Spares is js → Moves n is js
Spares-Moves n is js s = record {
  same_total = Spares-total is js s;
  keeps = λ k h. Spares-Held k is js s;
  known = Spares-known n is js s;
}

-- A change of the instance of `n` that keeps its name and requests.
change-known : (f : Instance → Instance) (o : Option Instance) → o ≢ none → change f o ≢ none
change-known f none h e = h refl
change-known f (some i) h e = cc

change-requests :
    (f : Instance → Instance)
    → ((i : Instance) → (f i).active ≡ i.active)
    → (o : Option Instance) → requests_at (change f o) ≡ requests_at o
change-requests f h none = refl
change-requests f h (some i) = h i

pub modify-Moves :
    (n : Name) (f : Instance → Instance) (is : List Instance)
    → ((i : Instance) → (f i).name ≡ i.name)
    → ((i : Instance) → (f i).active ≡ i.active)
    → Moves n is (modify n f is)
modify-Moves n f is named same = record {
  same_total = omega (arith, total-modify n f is, change-requests f same (lookup n is));
  keeps = λ k ne h. rw (lookup-modify_ne n f named k is ne) h;
  known = λ h. rw (lookup-modify_self n f named is) (change-known f (lookup n is) h);
}
