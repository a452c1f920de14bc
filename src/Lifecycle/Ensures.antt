-- ===== src/Lifecycle/Ensures.antt =====
-- What start in internal/lifecycle/lifecycle.go ensures.
use audio_server.Common.{
  ℕ, suc, ◌+◌, ◌&&◌, ◌≡◌, ◌≤◌, ◌≢◌, inl, inr, refl, not, Bool, true, false, if◌then◌else◌, is_some,
  Option, none, some, arith, List, length, Bool-cases, if_both,
}
use audio_server.Lifecycle.Types.{
  Name, Instance, Manager, Error, unknown_instance, start_failed, lookup, modify,
}
use audio_server.Lifecycle.Room.{Meter, make_room}
use audio_server.Lifecycle.Start.{
  Env, Launch, launched, gave_up, stuck, touch, settle, start_loop, stop_others, end_start, launch,
  clear_room, start_cold, start_with, start,
}
use audio_server.Lifecycle.Spare.{Spares, make_room-Spares, stop_others-Spares}
use audio_server.Lifecycle.Moves.{
  change, total, total-modify, requests_at, Held, IsRunning, Moves, Moves-refl, Moves-trans,
  Spares-Moves, lookup-modify_self, lookup-modify_ne,
}
use audio_server.Lifecycle.Holding.{LoopOk, start_loop-LoopOk}

-- What start ensures, whether it acquires the instance or not.
pub record StartOk (n : Name) (acquire : Bool) (is : List Instance)
    (r : List Instance × Option Error) : Type 0 where
  pub adds : total r.0 ≡ total is + (if acquire && not (is_some r.1) then 1 else 0)
  pub keeps : (k : Name) → n ≢ k → Held (lookup k is) → Held (lookup k r.0)
  pub runs : r.1 ≡ none → IsRunning (lookup n r.0)
  pub target : acquire ≡ true → r.1 ≡ none → 1 ≤ requests_at (lookup n r.0)
  pub self : acquire ≡ false → Held (lookup n is) → Held (lookup n r.0)

failed-StartOk :
    (n : Name) (acquire : Bool) (is js : List Instance) (e : Error)
    → Moves n is js
    → (Held (lookup n is) → ⊥)
    → StartOk n acquire is (js, some e)
failed-StartOk n acquire is js e v cold = record {
  adds = ground (arith, v.same_total);
  keeps = v.keeps;
  runs = λ h. cc;
  target = λ a h. cc;
  self = λ a h. absurd (cold h);
}

-- The use of a running instance, by a change that counts the request.
counted :
    (acquire : Bool) (f : Instance → Instance) (o : Option Instance)
    → ((x : Instance) → (f x).active ≡ (if acquire then suc x.active else x.active))
    → IsRunning o
    → requests_at (change f o) ≡ requests_at o + (if acquire then 1 else 0)
counted acquire f none c h = absurd h
counted acquire f (some i) c h = ground (arith, c i)

running-change :
    (f : Instance → Instance) (o : Option Instance)
    → ((x : Instance) → (f x).running ≡ x.running)
    → IsRunning o
    → IsRunning (change f o)
running-change f none r h = h
running-change f (some i) r h = rw (r i) h

finished-StartOk :
    (n : Name) (acquire : Bool) (f : Instance → Instance) (is js : List Instance)
    → ((x : Instance) → (f x).name ≡ x.name)
    → ((x : Instance) → (f x).active ≡ (if acquire then suc x.active else x.active))
    → ((x : Instance) → (f x).running ≡ x.running)
    → Moves n is js
    → IsRunning (lookup n js)
    → (acquire ≡ false → Held (lookup n is) → Held (change f (lookup n js)))
    → StartOk n acquire is (modify n f js, none)
finished-StartOk n acquire f is js named c r v h self = record {
  adds = ground (arith, v.same_total, total-modify n f js, counted acquire f (lookup n js) c h);
  keeps = λ k ne x. rw (lookup-modify_ne n f named k js ne) (v.keeps k ne x);
  runs = λ e. rw (lookup-modify_self n f named js) (running-change f (lookup n js) r h);
  target = λ a e.
      rw (lookup-modify_self n f named js) (ground (arith, counted acquire f (lookup n js) c h));
  self = λ a x. rw (lookup-modify_self n f named js) (self a x);
}

module _ (n : Name) (acquire : Bool) (env : Env) (is : List Instance)
    (cold : Held (lookup n is) → ⊥) (known : lookup n is ≢ none) where
  end_start-StartOk :
      (js : List Instance) (r : List Instance × Launch)
      → Moves n is js
      → LoopOk n js r
      → StartOk n acquire is (end_start n acquire r)
  unfolding end_start
  end_start-StartOk js (ks, launched) v ok =
      finished-StartOk n acquire (settle acquire) is ks (λ x. refl) (λ x. refl) (λ x. refl)
        (Moves-trans n is js ks v ok.moves) (ok.runs (v.known known) refl) (λ a h. absurd (cold h))
  end_start-StartOk js (ks, gave_up) v ok =
      failed-StartOk n acquire is ks start_failed (Moves-trans n is js ks v ok.moves) cold
  end_start-StartOk js (ks, stuck) v ok =
      failed-StartOk n acquire is ks start_failed (Moves-trans n is js ks v ok.moves) cold

  start_cold-StartOk :
      (r : List Instance × Meter × Option Error)
      → Spares is r.0
      → StartOk n acquire is (start_cold n acquire env r)
  unfolding start_cold launch
  start_cold-StartOk (js, meter, none) s =
      end_start-StartOk js (start_loop (suc (length js)) n env.now env.attempts 0 js)
        (Spares-Moves n is js s) (start_loop-LoopOk (suc (length js)) n env.now env.attempts 0 js)
  start_cold-StartOk (js, meter, some e) s =
      failed-StartOk n acquire is js e (Spares-Moves n is js s) cold

clear_room-Spares :
    (m : Manager) (n : Name) (exclusive : Bool) (meter : Meter) (vram_mib : ℕ)
    → Spares m.instances (clear_room m n exclusive meter vram_mib).0
unfolding clear_room
clear_room-Spares m n exclusive meter vram_mib =
    if_both (λ (r : List Instance × Meter × Option Error). Spares m.instances r.0) exclusive
      (stop_others n m.instances, meter, none)
      (make_room m.max_vram_mib m.has_meter n vram_mib meter m.instances)
      (stop_others-Spares n m.instances)
      (make_room-Spares m.max_vram_mib m.has_meter n vram_mib meter m.instances)

touch-Held :
    (acquire : Bool) (now : ℕ) (o : Option Instance)
    → acquire ≡ false
    → Held o
    → Held (change (touch acquire now) o)
touch-Held acquire now none a h = h
touch-Held acquire now (some i) a h = ground arith

start_with-StartOk :
    (m : Manager) (n : Name) (exclusive acquire : Bool) (env : Env) (o : Option Instance)
    → lookup n m.instances ≡ o
    → StartOk n acquire m.instances (start_with m n exclusive acquire env o)
unfolding start_with
start_with-StartOk m n exclusive acquire env none e =
    failed-StartOk n acquire m.instances m.instances unknown_instance (Moves-refl n m.instances)
      (rw e (λ h. h))
start_with-StartOk m n exclusive acquire env (some i) e = elim (Bool-cases i.running) [
  | inl hot ↦ rw hot (
      finished-StartOk n acquire (touch acquire env.now) m.instances m.instances (λ x. refl)
        (λ x. refl) (λ x. refl) (Moves-refl n m.instances) (rw e hot)
        (touch-Held acquire env.now (lookup n m.instances)))
  | inr halted ↦ rw halted (
      start_cold-StartOk n acquire env m.instances (rw e (λ h. cc)) (rw e (λ h. cc))
        (clear_room m n exclusive env.meter i.vram_mib)
        (clear_room-Spares m n exclusive env.meter i.vram_mib))
]

-- `start` adds one request, to the named instance, exactly if it acquires it and succeeds; if it
-- succeeds the instance runs; and no acquired instance of another name is stopped, nor the named
-- one if it was acquired before.
pub start-StartOk :
    (m : Manager) (n : Name) (exclusive acquire : Bool) (env : Env)
    → StartOk n acquire m.instances (start n exclusive acquire env m)
unfolding start
start-StartOk m n exclusive acquire env =
    start_with-StartOk m n exclusive acquire env (lookup n m.instances) refl

-- `start` adds one request to the requests in flight if it acquires the model and succeeds, and
-- otherwise leaves their number.
pub total-start :
    (m : Manager) (n : Name) (exclusive acquire : Bool) (env : Env)
    → total (start n exclusive acquire env m).0
      ≡ total m.instances
        + (if acquire && not (is_some (start n exclusive acquire env m).1) then 1 else 0)
total-start m n exclusive acquire env = (start-StartOk m n exclusive acquire env).adds

-- After a `start` without an error the model has a process set (`cmd`), whether or not that process
-- has ended by itself.
pub start-IsRunning :
    (m : Manager) (n : Name) (exclusive acquire : Bool) (env : Env)
    → (start n exclusive acquire env m).1 ≡ none
    → IsRunning (lookup n (start n exclusive acquire env m).0)
start-IsRunning m n exclusive acquire env = (start-StartOk m n exclusive acquire env).runs

-- A model that serves the request of its one holder is not stopped by the `start` of another, which
-- may evict models or stop all others, and may fail.
pub start-Held :
    (m : Manager) (n : Name) (exclusive acquire : Bool) (env : Env) (k : Name)
    → n ≢ k
    → Held (lookup k m.instances)
    → Held (lookup k (start n exclusive acquire env m).0)
start-Held m n exclusive acquire env = (start-StartOk m n exclusive acquire env).keeps
