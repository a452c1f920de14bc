-- ===== src/Separation/Stored.antt =====
-- What separate of internal/separationjob/manager.go leaves in the store.
use audio_server.Common.{
  ℕ, ◌==◌, ◌||◌, ◌≡◌, ◌⊎◌, inl, inr, refl, sym, ap, subst, ◌∙◌, not, if_both, true, some, arith,
  List, [], ◌∷◌, Bool-cases, ==_refl, ==→eq,
}
use audio_server.Analysis.Merge.{insert, sort}
use audio_server.Separation.Types.{Error, persist_failed, Store, write, member, Env}
use audio_server.Separation.Separate.{is_wanted, cons_stem, keep_stems}

-- An output of a name.
abbrev pub IsOutput : ℕ → List ℕ → List (ℕ × List ℕ) → Type 0
IsOutput name audio [] = ⊥
IsOutput name audio (o ∷ os) = (o ≡ (name, audio)) ⊎ IsOutput name audio os

-- A stem as it was, or an output of its name.
abbrev IsFrom : ℕ → ℕ → List (ℕ × List ℕ) → Store → Store → Type 0
IsFrom id name outputs s t =
    (t id name ≡ s id name)
    ⊎ ((audio : List ℕ) × IsOutput name audio outputs × (t id name ≡ some audio))

later-IsFrom :
    (id name : ℕ) (o : ℕ × List ℕ) (outputs : List (ℕ × List ℕ)) (s t : Store)
    → IsFrom id name outputs s t
    → IsFrom id name (o ∷ outputs) s t
later-IsFrom id name o outputs s t (inl e) = inl e
later-IsFrom id name o outputs s t (inr (audio, out, e)) = inr (audio, inr out, e)

written-IsFrom :
    (id name other : ℕ) (audio : List ℕ) (outputs : List (ℕ × List ℕ)) (s t : Store)
    → IsFrom id name outputs (write id other audio s) t
    → IsFrom id name ((other, audio) ∷ outputs) s t
written-IsFrom id name other audio outputs s t (inr (a, out, e)) = inr (a, inr out, e)
written-IsFrom id name other audio outputs s t (inl e) = elim (Bool-cases (name == other)) [
  | inl h ↦
      inr
        (audio, inl (ap (λ n. (n, audio)) (sym (==→eq name other h))), e ∙ rw (==_refl id, h) refl)
  | inr h ↦ inl (e ∙ rw (==_refl id, h) refl)
]

keep_stems-IsFrom :
    (env : Env) (id : ℕ) (want : List ℕ) (outputs : List (ℕ × List ℕ)) (s : Store) (name : ℕ)
    → IsFrom id name outputs s (keep_stems env id want outputs s).1
unfolding keep_stems
keep_stems-IsFrom env id want [] s name = inl refl
keep_stems-IsFrom env id want ((other, audio) ∷ outputs) s name =
    if_both (λ (r : (Error ⊎ List ℕ) × Store). IsFrom id name ((other, audio) ∷ outputs) s r.1)
      (not (is_wanted env want other)) (keep_stems env id want outputs s) _
      (later-IsFrom id name (other, audio) outputs s (keep_stems env id want outputs s).1
        (keep_stems-IsFrom env id want outputs s name))
      (if_both (λ (r : (Error ⊎ List ℕ) × Store). IsFrom id name ((other, audio) ∷ outputs) s r.1)
        (env.writes other) _ (inl persist_failed, s)
        (written-IsFrom id name other audio outputs s
          (keep_stems env id want outputs (write id other audio s)).1
          (keep_stems-IsFrom env id want outputs (write id other audio s) name))
        (inl refl))

-- A stored output of a name.
abbrev pub Stored : ℕ → ℕ → List (ℕ × List ℕ) → Store → Type 0
Stored id name outputs t = (audio : List ℕ) × IsOutput name audio outputs × (t id name ≡ some audio)

later-Stored :
    (id name : ℕ) (o : ℕ × List ℕ) (outputs : List (ℕ × List ℕ)) (t : Store)
    → Stored id name outputs t
    → Stored id name (o ∷ outputs) t
later-Stored id name o outputs t (audio, out, e) = (audio, inr out, e)

written-Stored :
    (id other : ℕ) (audio : List ℕ) (outputs : List (ℕ × List ℕ)) (s t : Store)
    → IsFrom id other outputs (write id other audio s) t
    → Stored id other ((other, audio) ∷ outputs) t
written-Stored id other audio outputs s t (inr (a, out, e)) = (a, inr out, e)
written-Stored id other audio outputs s t (inl e) =
    (audio, inl refl, e ∙ rw (==_refl id, ==_refl other) refl)

-- Each stem that the loop keeps is stored, as an output of its name.
abbrev pub Keeps : ℕ → List (ℕ × List ℕ) → (Error ⊎ List ℕ) × Store → Type 0
Keeps id outputs r =
    (stems : List ℕ)
    → r.0 ≡ inr stems
    → (name : ℕ) → member name stems ≡ true
    → Stored id name outputs r.1

cons-Keeps :
    (id other : ℕ) (audio : List ℕ) (outputs : List (ℕ × List ℕ)) (kept : Error ⊎ List ℕ)
    (t : Store)
    → Keeps id outputs (kept, t)
    → Stored id other ((other, audio) ∷ outputs) t
    → Keeps id ((other, audio) ∷ outputs) (cons_stem other kept, t)
unfolding member
cons-Keeps id other audio outputs (inl x) t k w stems e name h = cc
cons-Keeps id other audio outputs (inr ks) t k w stems e name h =
    elim (Bool-cases (name == other)) [
      | inl same ↦
          subst (λ n. Stored id n ((other, audio) ∷ outputs) t) (sym (==→eq name other same)) w
      | inr new ↦
          later-Stored id name (other, audio) outputs t (k ks refl name (ground (arith, e, h, new)))
    ]

none-Keeps : (id : ℕ) (s : Store) → Keeps id [] (inr [], s)
unfolding member
none-Keeps id s [] e name h = cc
none-Keeps id s (x ∷ xs) e name h = cc

pub keep_stems-Keeps :
    (env : Env) (id : ℕ) (want : List ℕ) (outputs : List (ℕ × List ℕ)) (s : Store)
    → Keeps id outputs (keep_stems env id want outputs s)
unfolding keep_stems member
keep_stems-Keeps env id want [] s = none-Keeps id s
keep_stems-Keeps env id want ((other, audio) ∷ outputs) s =
    if_both (Keeps id ((other, audio) ∷ outputs)) (not (is_wanted env want other))
      (keep_stems env id want outputs s) _
      (λ stems e name h.
        later-Stored id name (other, audio) outputs (keep_stems env id want outputs s).1
          (keep_stems-Keeps env id want outputs s stems e name h))
      (if_both (Keeps id ((other, audio) ∷ outputs)) (env.writes other) _ (inl persist_failed, s)
        (cons-Keeps id other audio outputs kept.0 kept.1
          (keep_stems-Keeps env id want outputs (write id other audio s))
          (written-Stored id other audio outputs s kept.1
            (keep_stems-IsFrom env id want outputs (write id other audio s) other)))
        (λ stems e. cc))
  where
    kept : (Error ⊎ List ℕ) × Store
    kept = keep_stems env id want outputs (write id other audio s)

member-insert : (x y : ℕ) (ys : List ℕ) → member x (insert y ys) ≡ ((x == y) || member x ys)
unfolding member insert
member-insert x y [] = refl
member-insert x y (z ∷ zs) = ground (arith, member-insert x y zs)

pub member-sort : (x : ℕ) (xs : List ℕ) → member x (sort xs) ≡ member x xs
unfolding member sort
member-sort x [] = refl
member-sort x (y ∷ ys) = member-insert x y (sort ys) ∙ ap (λ b. (x == y) || b) (member-sort x ys)
