-- ===== src/Queue/Ownership.antt =====
-- Where the jobs of internal/queue/queue.go are: one step of a worker keeps every unfinished job
-- in its provider's queue or with one worker.
use audio_server.Common.{
  ℕ, ◌+◌, ◌==◌, ◌≡◌, ltb, ◌&&◌, not, Bool, true, false, Option, none, some, is_some, arith, List,
  ◌∷◌, count, Bool-cases, inl, inr, ==→eq, subst,
}
use audio_server.Queue.Types.{Name, Ptr, Manager, SpeechResult, Error}
use audio_server.Queue.Jobs.{is_queued}
use audio_server.Queue.Worker.{
  Place, waiting, acquiring, picking, backing_off, releasing, gating, checking, locking, rechecking,
  warming, marking, synthesizing, stream_run, failing, Env, start_job, finish,
}
use audio_server.Queue.Counters.{one_if}

-- A job of the queue that is not finished, as against those that NewRunningJob made.
unfoldable pub is_live : Name → Ptr → Manager → Bool
is_live q a m =
    ltb a m.next
    && ((m.heap a).provider_id == q)
    && not (m.heap a).done
    && not (is_some (m.heap a).stream_bus)

-- Such a job is to be in the queue, or with a worker.
abbrev pub waits : Name → Ptr → Manager → Bool
waits q a m = is_live q a m && is_queued (m.heap a).status

abbrev pub is_served : Name → Ptr → Manager → Bool
is_served q a m = is_live q a m && not (is_queued (m.heap a).status)

abbrev pub cargo : Place → Option Ptr
cargo waiting = none
cargo acquiring = none
cargo picking = none
cargo backing_off = none
cargo releasing = none
cargo (gating a) = some a
cargo (checking a) = some a
cargo (locking a) = some a
cargo (rechecking a) = some a
cargo (warming a) = some a
cargo (marking a) = some a
cargo (synthesizing a) = some a
cargo (stream_run a meta audio) = some a
cargo (failing a e) = some a

abbrev pub holds_ptr : Ptr → Option Ptr → Bool
holds_ptr j none = false
holds_ptr j (some a) = a == j

abbrev pub carries : Ptr → Place → Bool
carries j l = holds_ptr j (cargo l)

-- The queue of `q` holds `j` once if it is to, and never otherwise.
abbrev pub QueueOk : Name → Ptr → Manager → Type 0
QueueOk q j m = count j (m.queues q) ≡ one_if (waits q j m)

-- What a worker of `p` at place `l` carries is a job of `p` that is served.
abbrev pub CargoOk : Place → Name → Manager → Type 0
CargoOk l p m = (a : Ptr) → cargo l ≡ some a → is_served p a m ≡ true

-- The balance of one job over a worker's step.
abbrev pub Balance : Place → Place → Name → Name → Ptr → Manager → Manager → Type 0
Balance l l' p q j m m' =
    one_if (is_served q j m') + one_if (carries j l && (p == q))
    ≡ one_if (is_served q j m) + one_if (carries j l' && (p == q))

pub is_live-provider :
    (p q : Name) (a : Ptr) (m : Manager) → is_live p a m ≡ true → is_live q a m ≡ true → p ≡ q
unfolding is_live
is_live-provider p q a m h k = ground arith

abbrev pub queued_at : Ptr → Manager → Bool
queued_at a m = is_queued (m.heap a).status

-- What finish and the start of a job do to the jobs.
module _ (p q : Name) (a j : Ptr) (m : Manager) (now : ℕ) where
  finish-is_live :
      (r : SpeechResult) (e : Option Error)
      → is_live q j (finish p a r e now m) ≡ (is_live q j m && not (a == j))
  unfolding finish is_live
  finish-is_live r none = ground arith
  finish-is_live r (some e) = ground arith

  finish-queued_at :
      (r : SpeechResult) (e : Option Error)
      → queued_at j (finish p a r e now m) ≡ (queued_at j m && not (a == j))
  unfolding finish
  finish-queued_at r none = ground arith
  finish-queued_at r (some e) = ground arith

  finish-count :
      (r : SpeechResult) (e : Option Error)
      → count j ((finish p a r e now m).queues q) ≡ count j (m.queues q)
  unfolding finish
  finish-count r none = ground arith
  finish-count r (some e) = ground arith

  start_job-is_live : (rest : List Ptr) → is_live q j (start_job now p a rest m) ≡ is_live q j m
  unfolding start_job is_live
  start_job-is_live rest = ground arith

  start_job-queued_at :
      (rest : List Ptr) → queued_at j (start_job now p a rest m) ≡ (queued_at j m && not (a == j))
  unfolding start_job
  start_job-queued_at rest = ground arith

  start_job-count :
      (rest : List Ptr)
      → m.queues p ≡ a ∷ rest
      → count j ((start_job now p a rest m).queues q) + one_if ((a == j) && (p == q))
        ≡ count j (m.queues q)
  unfolding start_job
  start_job-count rest e = elim (Bool-cases (p == q)) [
    | inl same ↦ rw same (
        subst (λ r. count j rest + one_if ((a == j) && true) ≡ count j (m.queues r))
          (==→eq p q same) (rw e (ground arith)))
    | inr other ↦ rw other (ground arith)
  ]

module _ (env : Env) (p q : Name) (j : Ptr) (m : Manager) (ok : QueueOk q j m) where
  pub finish-QueueOk :
      (a : Ptr) (r : SpeechResult) (e : Option Error)
      → is_served p a m ≡ true
      → QueueOk q j (finish p a r e env.now m)
  finish-QueueOk a r e h = ground (
    arith,
    finish-count p q a j m env.now r e,
    finish-is_live p q a j m env.now r e,
    finish-queued_at p q a j m env.now r e,
  )

  pub finish-Balance :
      (l : Place) (a : Ptr) (r : SpeechResult) (e : Option Error)
      → cargo l ≡ some a
      → is_served p a m ≡ true
      → Balance l releasing p q j m (finish p a r e env.now m)
  finish-Balance l a r e c h = ground (
    arith,
    finish-is_live p q a j m env.now r e,
    finish-queued_at p q a j m env.now r e,
    is_live-provider p q a m,
  )

  pub start_job-QueueOk :
      (a : Ptr) (rest : List Ptr)
      → QueueOk p a m
      → m.queues p ≡ a ∷ rest
      → QueueOk q j (start_job env.now p a rest m)
  start_job-QueueOk a rest oka e = ground (
    arith,
    start_job-is_live p q a j m env.now rest,
    start_job-queued_at p q a j m env.now rest,
    start_job-count p q a j m env.now rest e,
    start_job-count p p a a m env.now rest e,
    is_live-provider p q a m,
  )

  pub start_job-Balance :
      (a : Ptr) (rest : List Ptr)
      → QueueOk p a m
      → m.queues p ≡ a ∷ rest
      → Balance picking (gating a) p q j m (start_job env.now p a rest m)
  start_job-Balance a rest oka e = ground (
    arith,
    start_job-is_live p q a j m env.now rest,
    start_job-queued_at p q a j m env.now rest,
    start_job-count p p a a m env.now rest e,
    is_live-provider p q a m,
  )
