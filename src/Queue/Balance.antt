-- ===== src/Queue/Balance.antt =====
-- A worker's step in internal/queue/queue.go moves a job from the queue to the worker, or ends it,
-- and changes no other job's place.
use audio_server.Common.{
  ◌≡◌, refl, Bool, true, false, Option, none, some, arith, List, [], ◌∷◌, count,
}
use audio_server.Queue.Types.{Name, Ptr, Bytes, Manager, StreamMeta, SpeechResult, Error, external}
use audio_server.Queue.Worker.{
  Place, acquiring, picking, releasing, synthesizing, stream_run, failing, Env, StreamAction,
  header, chunk, returns, finish, advance, stream_step, pick,
}
use audio_server.Queue.Jobs.{bump_chunk, no_result}
use audio_server.Queue.Ownership.{
  is_live, queued_at, is_served, cargo, carries, QueueOk, CargoOk, Balance, finish-QueueOk,
  finish-Balance, start_job-QueueOk, start_job-Balance,
}

-- One job of `q` after a worker's step.
pub record JobStep (l l' : Place) (p q : Name) (j : Ptr) (m m' : Manager) : Type 0 where
  pub queue : QueueOk q j m'
  pub balance : Balance l l' p q j m m'

-- Two managers that agree on a job.
abbrev pub SameJob : Name → Ptr → Manager → Manager → Type 0
SameJob q j m m' =
    (count j (m'.queues q) ≡ count j (m.queues q))
    × (is_live q j m' ≡ is_live q j m)
    × (queued_at j m' ≡ queued_at j m)

same-JobStep :
    (l l' : Place) (p q : Name) (j : Ptr) (m m' : Manager)
    → QueueOk q j m
    → carries j l' ≡ carries j l
    → SameJob q j m m'
    → JobStep l l' p q j m m'
same-JobStep l l' p q j m m' ok c s = record {
  queue = ground (arith, s.0, s.1, s.2);
  balance = ground (arith, s.0, s.1, s.2);
}

pub bump_chunk-SameJob :
    (q : Name) (j : Ptr) (id : Name) (bytes : Bytes) (m : Manager)
    → SameJob q j m (bump_chunk id bytes m)
unfolding bump_chunk is_live
bump_chunk-SameJob q j id bytes m = (ground arith, ground arith, ground arith)

-- The steps that leave all jobs in their place.
abbrev is_quiet : Place → Bool
is_quiet picking = false
is_quiet (synthesizing a) = false
is_quiet (stream_run a meta audio) = false
is_quiet (failing a e) = false
is_quiet _ = true

advance-carries :
    (l : Place) (env : Env) (p : Name) (j : Ptr) (m : Manager)
    → is_quiet l ≡ true
    → carries j (advance l env p m).0 ≡ carries j l
unfolding advance
advance-carries acquiring env p j m h = ground arith
advance-carries _ env p j m h = ground arith

advance-SameJob :
    (l : Place) (env : Env) (p q : Name) (j : Ptr) (m : Manager)
    → is_quiet l ≡ true
    → SameJob q j m (advance l env p m).1
unfolding advance is_live
advance-SameJob picking env p q j m h = cc
advance-SameJob (synthesizing a) env p q j m h = cc
advance-SameJob (stream_run a meta audio) env p q j m h = cc
advance-SameJob (failing a e) env p q j m h = cc
advance-SameJob _ env p q j m h = (ground arith, ground arith, ground arith)

module _ (env : Env) (p q : Name) (j : Ptr) (m : Manager)
    (ok : (k : Ptr) (r : Name) → QueueOk r k m) where
  finish-JobStep :
      (l : Place) (a : Ptr) (r : SpeechResult) (e : Option Error)
      → cargo l ≡ some a
      → is_served p a m ≡ true
      → JobStep l releasing p q j m (finish p a r e env.now m)
  finish-JobStep l a r e c h = record {
    queue = finish-QueueOk env p q j m (ok j q) a r e h;
    balance = finish-Balance env p q j m (ok j q) l a r e c h;
  }

  stream-JobStep :
      (a : Ptr) (meta : StreamMeta) (audio : Bytes) (act : StreamAction)
      → is_served p a m ≡ true
      → let r = stream_step a meta audio env.now p m act in
        JobStep (stream_run a meta audio) r.0 p q j m r.1
  unfolding stream_step
  stream-JobStep a meta audio (header meta') h =
      same-JobStep _ _ p q j m m (ok j q) refl (refl, refl, refl)
  stream-JobStep a meta audio (chunk bytes taken) h =
      same-JobStep _ _ p q j m _ (ok j q) refl (bump_chunk-SameJob q j (m.heap a).id bytes m)
  stream-JobStep a meta audio (returns none) h = finish-JobStep _ a _ none refl h
  stream-JobStep a meta audio (returns (some e)) h =
      finish-JobStep _ a no_result (some (external e)) refl h

  pick-JobStep :
      (jobs : List Ptr)
      → m.queues p ≡ jobs
      → let r = pick env.now p m jobs in JobStep picking r.0 p q j m r.1
  unfolding pick
  pick-JobStep [] e = same-JobStep _ _ p q j m m (ok j q) refl (refl, refl, refl)
  pick-JobStep (a ∷ rest) e = record {
    queue = start_job-QueueOk env p q j m (ok j q) a rest (ok a p) e;
    balance = start_job-Balance env p q j m (ok j q) a rest (ok a p) e;
  }

  pub advance-JobStep :
      (l : Place) → CargoOk l p m → JobStep l (advance l env p m).0 p q j m (advance l env p m).1
  unfolding advance
  advance-JobStep picking c = pick-JobStep _ refl
  advance-JobStep (synthesizing a) c = finish-JobStep _ a _ _ refl (c a refl)
  advance-JobStep (stream_run a meta audio) c = stream-JobStep a meta audio env.streaming (c a refl)
  advance-JobStep (failing a e) c = finish-JobStep _ a no_result (some e) refl (c a refl)
  advance-JobStep l c =
      same-JobStep l _ p q j m _ (ok j q) (advance-carries l env p j m refl)
        (advance-SameJob l env p q j m refl)
