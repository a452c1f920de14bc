-- ===== src/Analysis/Ensures.antt =====
-- Properties of the outcomes of the computations in internal/analysisjob/manager.go.
use audio_server.Common.{ℕ, ◌≡◌, refl, Option, none, some, subst, ◌⊎◌, inl, inr}
use audio_server.Analysis.Effects.{
  Error, Run, ok, ◌>>=◌, Gate, opens, opens_for_free, refuses, need, acquiring, release_after,
  deferred_after, within_gate, within_function,
}

abbrev pub Holds : {A : Type 0} → (A → Type 0) → Error ⊎ A → Type 0
Holds P (inl e) = Unit
Holds P (inr a) = P a

-- A property of the outcome of a computation, if it does not fail.
pub record Ensures {A : Type 0} (P : A → Type 0) (r : Run A) : Type 0 where
  pub holds : Holds P r.1

module _ {A : Type 0} where
  pub any-Ensures : (r : Run A) → Ensures (λ a. Unit) r
  any-Ensures (l, inl e) = record { holds = tt }
  any-Ensures (l, inr a) = record { holds = tt }

  pub ok-Ensures : (P : A → Type 0) (a : A) → P a → Ensures P (ok a)
  ok-Ensures P a h = record { holds = h }

  acquiring-Ensures :
      (after : Option ℕ → Run A → Run A) (P : A → Type 0) (g : Gate) (id : ℕ) (r : Run A)
      → ((release : Option ℕ) → Ensures P (after release r))
      → Ensures P (acquiring after g id r)
  unfolding acquiring
  acquiring-Ensures after P opens id r h = record { holds = (h (some id)).holds }
  acquiring-Ensures after P opens_for_free id r h = h none
  acquiring-Ensures after P refuses id r h = record { holds = tt }

  pub within_gate-Ensures :
      (P : A → Type 0) (g : Gate) (id : ℕ) (r : Run A)
      → Ensures P r
      → Ensures P (within_gate g id r)
  unfolding within_gate release_after
  within_gate-Ensures P g id (l, inl e) h =
      acquiring-Ensures release_after P g id (l, inl e) (λ release. record { holds = tt })
  within_gate-Ensures P g id (l, inr a) h =
      acquiring-Ensures release_after P g id (l, inr a) (λ release. record { holds = h.holds })

  pub within_function-Ensures :
      (P : A → Type 0) (g : Gate) (id : ℕ) (r : Run A)
      → Ensures P r
      → Ensures P (within_function g id r)
  unfolding within_function deferred_after
  within_function-Ensures P g id r h =
      acquiring-Ensures deferred_after P g id r (λ release. record { holds = h.holds })

  -- An answer that is there has the property.
  pub need-Ensures :
      (P : A → Type 0) (e : Error) (o : Option A)
      → ((a : A) → o ≡ some a → P a)
      → Ensures P (need e o)
  need-Ensures P e none h = record { holds = tt }
  need-Ensures P e (some a) h = record { holds = h a refl }

  pub outcome-Ensures : (P : A → Type 0) (r : Run A) (a : A) → Ensures P r → r.1 ≡ inr a → P a
  outcome-Ensures P r a h q = subst (Holds P) q h.holds

pub then-Ensures :
    {A B : Type 0} (Q : A → Type 0) (P : B → Type 0) (r : Run A) (k : A → Run B)
    → Ensures Q r
    → ((a : A) → Q a → Ensures P (k a))
    → Ensures P (r >>= k)
then-Ensures Q P (l, inl e) k q h = record { holds = tt }
then-Ensures Q P (l, inr a) k q h = record { holds = (h a q.holds).holds }

pub then-Ensures_any :
    {A B : Type 0} (P : B → Type 0) (r : Run A) (k : A → Run B)
    → ((a : A) → Ensures P (k a))
    → Ensures P (r >>= k)
then-Ensures_any P r k h = then-Ensures (λ a. Unit) P r k (any-Ensures r) (λ a u. h a)
