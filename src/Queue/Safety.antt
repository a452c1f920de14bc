-- ===== src/Queue/Safety.antt =====
-- A worker's step in internal/queue/queue.go closes no channel twice and reads no nil resource.
use audio_server.Common.{◌≡◌, ◌≢◌, refl, true, false, Option, none, some, is_some, arith}
use audio_server.Queue.Types.{Name, Ptr, Bytes, Manager, SpeechResult, StreamMeta, Error, external}
use audio_server.Queue.Jobs.{bump_chunk, no_result}
use audio_server.Queue.Worker.{
  Place, Env, StreamAction, header, chunk, returns, acquiring, synthesizing, stream_run, failing,
  finish, stream_step, advance,
}
use audio_server.Queue.Ownership.{is_live, is_served, CargoOk}

-- An open stream bus belongs to a job that is not finished.
abbrev pub BusOk : Ptr → Manager → Type 0
BusOk j m = is_some (m.heap j).stream_bus ≡ true → (m.heap j).done ≡ false

served-open :
    (p : Name) (a : Ptr) (m : Manager)
    → is_served p a m ≡ true
    → ((m.heap a).done ≡ false) × (is_some (m.heap a).stream_bus ≡ false)
unfolding is_live
served-open p a m h = ground arith

module _ (env : Env) (p : Name) (m : Manager) where
  finish-BusOk :
      (j a : Ptr) (r : SpeechResult) (e : Option Error)
      → is_served p a m ≡ true
      → BusOk j m
      → BusOk j (finish p a r e env.now m)
  unfolding finish
  finish-BusOk j a r none h ok = ground (arith, served-open p a m h)
  finish-BusOk j a r (some e) h ok = ground (arith, served-open p a m h)

  finish-panicked :
      (a : Ptr) (r : SpeechResult) (e : Option Error)
      → is_served p a m ≡ true
      → m.panicked ≡ false
      → (finish p a r e env.now m).panicked ≡ false
  unfolding finish
  finish-panicked a r none h ok = ground (arith, served-open p a m h)
  finish-panicked a r (some e) h ok = ground (arith, served-open p a m h)

  stream-BusOk :
      (j a : Ptr) (meta : StreamMeta) (audio : Bytes) (act : StreamAction)
      → is_served p a m ≡ true
      → BusOk j m
      → BusOk j (stream_step a meta audio env.now p m act).1
  unfolding stream_step bump_chunk
  stream-BusOk j a meta audio (header meta') h ok = ok
  stream-BusOk j a meta audio (chunk bytes taken) h ok = ground arith
  stream-BusOk j a meta audio (returns none) h ok = finish-BusOk j a _ none h ok
  stream-BusOk j a meta audio (returns (some e)) h ok =
      finish-BusOk j a no_result (some (external e)) h ok

  stream-panicked :
      (a : Ptr) (meta : StreamMeta) (audio : Bytes) (act : StreamAction)
      → is_served p a m ≡ true
      → m.panicked ≡ false
      → (stream_step a meta audio env.now p m act).1.panicked ≡ false
  unfolding stream_step bump_chunk
  stream-panicked a meta audio (header meta') h ok = ok
  stream-panicked a meta audio (chunk bytes taken) h ok = ground arith
  stream-panicked a meta audio (returns none) h ok = finish-panicked a _ none h ok
  stream-panicked a meta audio (returns (some e)) h ok =
      finish-panicked a no_result (some (external e)) h ok

  pub advance-BusOk :
      (l : Place) (j : Ptr) → CargoOk l p m → BusOk j m → BusOk j (advance l env p m).1
  unfolding advance
  advance-BusOk acquiring j c ok = ground arith
  advance-BusOk (synthesizing a) j c ok = finish-BusOk j a _ _ (c a refl) ok
  advance-BusOk (stream_run a meta audio) j c ok =
      stream-BusOk j a meta audio env.streaming (c a refl) ok
  advance-BusOk (failing a e) j c ok = finish-BusOk j a no_result (some e) (c a refl) ok
  advance-BusOk _ j c ok = ground arith

  pub advance-panicked :
      (l : Place)
      → CargoOk l p m
      → (m.resource_for p ≢ 0 → m.resources (m.resource_for p) ≢ none)
      → m.panicked ≡ false
      → (advance l env p m).1.panicked ≡ false
  unfolding advance
  advance-panicked acquiring c r ok = ground arith
  advance-panicked (synthesizing a) c r ok = finish-panicked a _ _ (c a refl) ok
  advance-panicked (stream_run a meta audio) c r ok =
      stream-panicked a meta audio env.streaming (c a refl) ok
  advance-panicked (failing a e) c r ok = finish-panicked a no_result (some e) (c a refl) ok
  advance-panicked _ c r ok = ground arith
