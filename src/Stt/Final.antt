-- ===== src/Stt/Final.antt =====
-- The run of a job of internal/sttjob/manager.go from its start to its end.
use audio_server.Common.{
  ℕ, zero, suc, ◌≡◌, refl, ◌∙◌, ap, ◌≤◌, ◌==◌, ==→eq, sym, subst, if_both, not, ◌≢◌, ◌⊎◌, inl, inr,
  ◌++◌, Bool-cases, Option-cases, if◌then◌else◌, Bool, true, false, Option, none, some, arith, List,
  [], ◌∷◌, get_elem?, set,
}
use audio_server.Stt.Jobs.{
  succeeded, failed, created, over, Job, Manager, opens, opens_for_free, refuses, Answer, get,
  knows, submit, advance, submits, submit, Event, moves, move, step, run,
}

get_elem?-set_self :
    {A : Type 0} (xs : List A) (i : ℕ) (v : A) {x : A}
    → get_elem? xs i ≡ some x
    → get_elem? (set xs i v) i ≡ some v
get_elem?-set_self [] i v e = ground arith
get_elem?-set_self (x ∷ xs) zero v e = refl
get_elem?-set_self (x ∷ xs) (suc i) v e = get_elem?-set_self xs i v e

abbrev next : Bool → Answer → Job → Job
next has_gate a job = advance has_gate a job.phase job

move-get :
    (id : ℕ) (a : Answer) (m : Manager) (job : Job)
    → get id m ≡ some job
    → get id (step (moves id a) m) ≡ some (next m.has_gate a job)
unfolding get step move
move-get id a m job e = rw e (get_elem?-set_self m.jobs id (next m.has_gate a job) e)

has_gate-step :
    (id : ℕ) (a : Answer) (m : Manager) (job : Job)
    → get id m ≡ some job
    → (step (moves id a) m).has_gate ≡ m.has_gate
unfolding get step move
has_gate-step id a m job e = rw e refl

-- A job under an id, and whether there is a gate.
abbrev IsAt : ℕ → Bool → Manager → Job → Type 0
IsAt id has_gate m job = (get id m ≡ some job) × (m.has_gate ≡ has_gate)

move-IsAt :
    (id : ℕ) (a : Answer) (has_gate : Bool) (m : Manager) (job : Job)
    → IsAt id has_gate m job
    → IsAt id has_gate (step (moves id a) m) (next has_gate a job)
move-IsAt id a has_gate m job (e, g) =
    (move-get id a m job e ∙ ap (λ b. some (next b a job)) g, has_gate-step id a m job e ∙ g)

-- What the run ends with: the empty result and the gate's error if it refused, and otherwise what
-- the provider returned.
abbrev pub outcome : Bool → Answer → ℕ × Option ℕ
outcome false a = (a.result, a.error)
outcome true a = elim a.gate [
  | opens ↦ (a.result, a.error)
  | opens_for_free ↦ (a.result, a.error)
  | refuses e ↦ (0, some e)
]

-- A job whose goroutine is over: it has failed exactly if there is an error.
abbrev pub ended : ℕ × Option ℕ → Job → Job
ended (result, none) job = record job {
  status = succeeded;
  result = result;
  error = none;
  phase = over;
}
ended (result, some e) job = record job {
  status = failed;
  result = result;
  error = some e;
  phase = over;
}

abbrev steps : ℕ → Bool → Answer → Job → Job
steps zero has_gate a job = job
steps (suc n) has_gate a job = steps n has_gate a (next has_gate a job)

four-next :
    (has_gate : Bool) (a : Answer) (job : Job)
    → job.phase ≡ created
    → next has_gate a (next has_gate a (next has_gate a (next has_gate a job)))
      ≡ ended (outcome has_gate a) job
unfolding advance
four-next has_gate a job e = ground (arith, e)

next-over :
    (has_gate : Bool) (a : Answer) (job : Job) → job.phase ≡ over → next has_gate a job ≡ job
unfolding advance
next-over has_gate a job e = ground (arith, e)

over-steps :
    (n : ℕ) (has_gate : Bool) (a : Answer) (job : Job)
    → job.phase ≡ over
    → steps n has_gate a job ≡ job
over-steps zero has_gate a job e = refl
over-steps (suc n) has_gate a job e =
    ap (steps n has_gate a) (next-over has_gate a job e) ∙ over-steps n has_gate a job e

ended-over : (o : ℕ × Option ℕ) (job : Job) → (ended o job).phase ≡ over
ended-over (result, none) job = refl
ended-over (result, some e) job = refl

-- The steps of one goroutine among the events, and that the calls of its run answer with `a`.
abbrev pub moves_of : ℕ → List Event → ℕ
moves_of id [] = 0
moves_of id (submits made p source ∷ es) = moves_of id es
moves_of id (moves j b ∷ es) = let rest = moves_of id es in if j == id then suc rest else rest

abbrev pub Answers : ℕ → Answer → List Event → Type 0
Answers id a [] = Unit
Answers id a (submits made p source ∷ es) = Answers id a es
Answers id a (moves j b ∷ es) = ((j ≢ id) ⊎ (b ≡ a)) × Answers id a es

get_elem?-append :
    {A : Type 0} (xs ys : List A) (i : ℕ) {x : A}
    → get_elem? xs i ≡ some x
    → get_elem? (xs ++ ys) i ≡ some x
get_elem?-append [] ys i e = ground (arith, e)
get_elem?-append (x ∷ xs) ys zero e = e
get_elem?-append (x ∷ xs) ys (suc i) e = get_elem?-append xs ys i e

get_elem?-set_other :
    {A : Type 0} (xs : List A) (i j : ℕ) (v : A) → j ≢ i → get_elem? (set xs j v) i ≡ get_elem? xs i
get_elem?-set_other [] i j v h = refl
get_elem?-set_other (x ∷ xs) zero zero v h = absurd (h refl)
get_elem?-set_other (x ∷ xs) zero (suc j) v h = refl
get_elem?-set_other (x ∷ xs) (suc i) zero v h = refl
get_elem?-set_other (x ∷ xs) (suc i) (suc j) v h = get_elem?-set_other xs i j v (λ e. h (ap suc e))

submit-IsAt :
    (id : ℕ) (made : Bool) (p source : ℕ) (has_gate : Bool) (m : Manager) (job : Job)
    → IsAt id has_gate m job
    → IsAt id has_gate (step (submits made p source) m) job
unfolding get step submit
submit-IsAt id made p source has_gate m job h =
    if_both (λ (x : Option ℕ × Manager). IsAt id has_gate x.1 job) (not (knows p m.providers)) _ _ h
      (if_both (λ (x : Option ℕ × Manager). IsAt id has_gate x.1 job) (not made) _ _ h
        (get_elem?-append m.jobs _ id h.0, h.1))

other-IsAt :
    (id j : ℕ) (b : Answer) (has_gate : Bool) (m : Manager) (job : Job)
    → j ≢ id
    → IsAt id has_gate m job
    → IsAt id has_gate (step (moves j b) m) job
unfolding get step move
other-IsAt id j b has_gate m job h (e, g) = elim (Option-cases (get_elem? m.jobs j)) [
  | inl q ↦ rw q (e, g)
  | inr (o, q) ↦ rw q (get_elem?-set_other m.jobs id j (advance m.has_gate b o.phase o) h ∙ e, g)
]

own-IsAt :
    (id j : ℕ) (a b : Answer) (has_gate : Bool) (m : Manager) (job : Job)
    → j ≡ id
    → (j ≢ id) ⊎ (b ≡ a)
    → IsAt id has_gate m job
    → IsAt id has_gate (step (moves j b) m) (next has_gate a job)
own-IsAt id j a b has_gate m job e (inl n) h = absurd (n e)
own-IsAt id j a b has_gate m job e (inr q) h =
    subst (λ i. IsAt id has_gate (step (moves i b) m) (next has_gate a job)) (sym e)
      (subst (λ x. IsAt id has_gate (step (moves id x) m) (next has_gate a job)) (sym q)
        (move-IsAt id a has_gate m job h))

run-IsAt :
    (id : ℕ) (a : Answer) (es : List Event) (has_gate : Bool) (m : Manager) (job : Job)
    → IsAt id has_gate m job
    → Answers id a es
    → IsAt id has_gate (run es m) (steps (moves_of id es) has_gate a job)
unfolding run
run-IsAt id a [] has_gate m job h k = h
run-IsAt id a (submits made p source ∷ es) has_gate m job h k =
    run-IsAt id a es has_gate (step (submits made p source) m) job
      (submit-IsAt id made p source has_gate m job h) k
run-IsAt id a (moves j b ∷ es) has_gate m job h (k, ks) = elim (Bool-cases (j == id)) [
  | inl q ↦ rw q (
      run-IsAt id a es has_gate (step (moves j b) m) (next has_gate a job)
        (own-IsAt id j a b has_gate m job (==→eq j id q) k h) ks)
  | inr q ↦ rw q (
      run-IsAt id a es has_gate (step (moves j b) m) job
        (other-IsAt id j b has_gate m job (λ z. ground (arith, q, z)) h) ks)
]

-- Whatever other jobs are submitted and run in between, once the goroutine of a submitted job has
-- made four steps or more the job has ended: with the empty result and the gate's error if the
-- gate refused, and otherwise with the result and the error that the provider returned; it has
-- failed if there is an error and has succeeded if there is none.
pub get-ended :
    (id : ℕ) (a : Answer) (es : List Event) (m : Manager) (job : Job)
    → get id m ≡ some job
    → job.phase ≡ created
    → Answers id a es
    → 4 ≤ moves_of id es
    → get id (run es m) ≡ some (ended (outcome m.has_gate a) job)
get-ended id a es m job e c k n =
    (run-IsAt id a es m.has_gate m job (e, refl) k).0 ∙ ap some (last (moves_of id es) n)
  where
    last : (i : ℕ) → 4 ≤ i → steps i m.has_gate a job ≡ ended (outcome m.has_gate a) job
    last (suc (suc (suc (suc i)))) n =
        ap (steps i m.has_gate a) (four-next m.has_gate a job c)
        ∙ over-steps i m.has_gate a (ended (outcome m.has_gate a) job)
            (ended-over (outcome m.has_gate a) job)
    last zero n = ground (arith, n)
    last (suc zero) n = ground (arith, n)
    last (suc (suc zero)) n = ground (arith, n)
    last (suc (suc (suc zero))) n = ground (arith, n)
