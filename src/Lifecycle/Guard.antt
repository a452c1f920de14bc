-- ===== src/Lifecycle/Guard.antt =====
-- The model that a caller of Acquire in internal/lifecycle/lifecycle.go holds stays loaded.
use audio_server.Common.{
  ℕ, ◌==◌, ◌≡◌, ◌≤◌, inl, inr, refl, sym, Bool, true, false, is_some, Option, none, some, arith,
  List, [], ◌∷◌, map, get_elem?, Bool-cases, ==→eq,
}
use audio_server.Lifecycle.Types.{
  Name, Instance, Manager, Error, lookup, modify, register, register_all, new_manager, configured,
}
use audio_server.Lifecycle.Start.{Env, start}
use audio_server.Lifecycle.Spare.{Spares, idle_tick-Spares}
use audio_server.Lifecycle.Moves.{
  change, total, total-modify, requests_at, Held, IsRunning, Spares-total, Spares-Held,
  lookup-modify_self, modify-Moves,
}
use audio_server.Lifecycle.Calls.{
  acquired, acquire, leave, release_for, release, bump, shut_down, stop_all, idle_tick, Event,
  acquires, releases, starts, bumps, ticks, stops_all, step, run,
}
use audio_server.Lifecycle.Ensures.{StartOk, start-StartOk}

-- No request is in flight, or the one of the holder, on its running instance.
abbrev pub IsGuarded : Option Name → List Instance → Type 0
IsGuarded none is = total is ≡ 0
IsGuarded (some n) is = (total is ≡ 1) × Held (lookup n is)

requests_at-≤ : (n : Name) (is : List Instance) → requests_at (lookup n is) ≤ total is
unfolding lookup
requests_at-≤ n [] = omega arith
requests_at-≤ n (i ∷ is) = ground (arith, requests_at-≤ n is)

one-Held : (o : Option Instance) → requests_at o ≤ 1 → 1 ≤ requests_at o → IsRunning o → Held o
one-Held none a b r = r
one-Held (some i) a b r = (omega (arith, a, b), r)

-- The model that runs is not lost by what keeps the requests.
keeps-IsGuarded :
    (h : Option Name) (is js : List Instance)
    → total js ≡ total is
    → ((k : Name) → Held (lookup k is) → Held (lookup k js))
    → IsGuarded h is
    → IsGuarded h js
keeps-IsGuarded none is js t k g = omega (arith, t, g)
keeps-IsGuarded (some n) is js t k g = (omega (arith, t, g.0), k n g.1)

Spares-IsGuarded :
    (h : Option Name) (is js : List Instance) → Spares is js → IsGuarded h is → IsGuarded h js
Spares-IsGuarded h is js s =
    keeps-IsGuarded h is js (Spares-total is js s) (λ k. Spares-Held k is js s)

start-IsGuarded :
    (m : Manager) (n : Name) (exclusive : Bool) (env : Env)
    → IsGuarded m.exec_holder m.instances
    → IsGuarded m.exec_holder (start n exclusive false env m).0
start-IsGuarded m n exclusive env =
    let ok = start-StartOk m n exclusive false env in
    keeps-IsGuarded m.exec_holder m.instances (start n exclusive false env m).0
      (ground (arith, ok.adds))
      (λ k h. elim (Bool-cases (n == k)) [
        | inl e ↦ ground (arith, ok.self refl, ==→eq n k e, h)
        | inr e ↦ ok.keeps k (λ q. ground (arith, q, e)) h
      ])

acquired-IsGuarded :
    (m : Manager) (n : Name) (r : List Instance × Option Error)
    → m.exec_holder ≡ none
    → total m.instances ≡ 0
    → StartOk n true m.instances r
    → IsGuarded (acquired n m r).0.exec_holder (acquired n m r).0.instances
unfolding acquired
acquired-IsGuarded m n (is, none) e z ok = (
  ground (arith, ok.adds, z),
  one-Held (lookup n is) (ground (arith, requests_at-≤ n is, ok.adds, z)) (ok.target refl refl)
      (ok.runs refl),
)
acquired-IsGuarded m n (is, some x) e z ok = rw e (ground (arith, ok.adds, z))

left :
    (now : ℕ) (o : Option Instance)
    → Held o
    → (requests_at o ≡ 1) × (requests_at (change (leave now) o) ≡ 0)
left now none h = absurd h
left now (some i) h = (h.0, omega (arith, h.0))

release_for-IsGuarded :
    (now : ℕ) (m : Manager) (h : Option Name)
    → m.exec_holder ≡ h
    → IsGuarded h m.instances
    → IsGuarded (release_for now m h).exec_holder (release_for now m h).instances
unfolding release_for
release_for-IsGuarded now m none e g = rw e g
release_for-IsGuarded now m (some n) e (t, held) =
    ground (arith, t, total-modify n (leave now) m.instances, left now (lookup n m.instances) held)

total-shut_down : (is : List Instance) → total (map shut_down is) ≡ total is
total-shut_down [] = refl
total-shut_down (i ∷ is) = ground (arith, total-shut_down is)

bump-Held :
    (now : ℕ) (o : Option Instance) → Held o → Held (change (λ i. record i { last_used = now }) o)
bump-Held now none h = h
bump-Held now (some i) h = h

bump-IsGuarded :
    (n : Name) (now : ℕ) (m : Manager)
    → IsGuarded m.exec_holder m.instances
    → IsGuarded m.exec_holder (bump n now m).instances
unfolding bump
bump-IsGuarded n now m =
    let f : Instance → Instance = λ i. record i { last_used = now } in
    let v = modify-Moves n f m.instances (λ x. refl) (λ x. refl) in
    keeps-IsGuarded m.exec_holder m.instances (modify n f m.instances) v.same_total (λ k h.
      elim (Bool-cases (n == k)) [
        | inl e ↦
            rw (sym (==→eq n k e), lookup-modify_self n f (λ x. refl) m.instances)
              (bump-Held now (lookup n m.instances) (rw (==→eq n k e) h))
        | inr e ↦ v.keeps k (λ q. ground (arith, q, e)) h
      ])

unheld : (h : Option Name) → is_some h ≡ false → h ≡ none
unheld none e = refl
unheld (some n) e = cc

stopped-IsGuarded :
    (h : Option Name) (is : List Instance)
    → h ≡ none
    → IsGuarded h is
    → IsGuarded h (map shut_down is)
stopped-IsGuarded none is e g = omega (arith, total-shut_down is, g)
stopped-IsGuarded (some n) is e g = cc

step-IsGuarded :
    (e : Event) (m : Manager)
    → IsGuarded m.exec_holder m.instances
    → IsGuarded (step e m).exec_holder (step e m).instances
unfolding step acquire release stop_all
step-IsGuarded (acquires n env) m g = elim (Bool-cases (is_some m.exec_holder)) [
  | inl h ↦ rw h g
  | inr h ↦ rw h (
      acquired-IsGuarded m n (start n false true env m) (unheld m.exec_holder h)
        (rw (unheld m.exec_holder h) at g) (start-StartOk m n false true env))
]
step-IsGuarded (releases now) m g = release_for-IsGuarded now m m.exec_holder refl g
step-IsGuarded (starts n exclusive env) m g = start-IsGuarded m n exclusive env g
step-IsGuarded (bumps n now) m g = bump-IsGuarded n now m g
step-IsGuarded (ticks k now) m g =
    Spares-IsGuarded m.exec_holder m.instances
      (idle_tick k now (get_elem? m.instances k) m.instances)
      (idle_tick-Spares k now (get_elem? m.instances k) m.instances refl) g
step-IsGuarded stops_all m g = elim (Bool-cases (is_some m.exec_holder)) [
  | inl h ↦ rw h g
  | inr h ↦ rw h (stopped-IsGuarded m.exec_holder m.instances (unheld m.exec_holder h) g)
]

pub run-IsGuarded :
    (es : List Event) (m : Manager)
    → IsGuarded m.exec_holder m.instances
    → IsGuarded (run es m).exec_holder (run es m).instances
unfolding run
run-IsGuarded [] m g = g
run-IsGuarded (e ∷ es) m g = run-IsGuarded es (step e m) (step-IsGuarded e m g)

total-register :
    (n : Name) (idle_timeout vram_mib : ℕ) (is : List Instance)
    → total is ≡ 0
    → total (register n idle_timeout vram_mib is) ≡ 0
unfolding register
total-register n t v [] h = refl
total-register n t v (i ∷ is) h = ground (arith, h, total-register n t v is)

total-register_all :
    (ms : List (Name × ℕ × ℕ)) (is : List Instance) → total is ≡ 0 → total (register_all ms is) ≡ 0
unfolding register_all
total-register_all [] is h = h
total-register_all ((n, t, v) ∷ ms) is h =
    total-register_all ms (register n t v is) (total-register n t v is h)

-- After any events on a manager with any registered models: while a caller to which Acquire has
-- returned has not released, exactly one request is in flight, it is counted on the model that was
-- acquired, and that model has a process set (`cmd`), which may have ended by itself; while there is
-- no such caller, no request is in flight.
pub run-configured-IsGuarded :
    (max_vram_mib : ℕ) (has_meter : Bool) (ms : List (Name × ℕ × ℕ)) (es : List Event)
    → IsGuarded
        (run es (configured max_vram_mib has_meter ms)).exec_holder
        (run es (configured max_vram_mib has_meter ms)).instances
unfolding configured new_manager
run-configured-IsGuarded max_vram_mib has_meter ms es =
    run-IsGuarded es (configured max_vram_mib has_meter ms) (total-register_all ms [] refl)
