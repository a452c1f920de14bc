-- ===== src/Queue/Privacy.antt =====
-- clearEphemeralRequest of internal/queue/queue.go: no uploaded speaker reference outlives its job.
use audio_server.Common.{
  ℕ, ap, ◌∙◌, ◌≡◌, refl, true, false, Option, none, some, arith, List, [], ◌∷◌,
}
use audio_server.Queue.Types.{Name, Ptr, Bytes, Manager, StreamMeta, SpeechResult, Error, external}
use audio_server.Queue.Jobs.{no_result}
use audio_server.Queue.Worker.{
  Worker, Place, stream_run, synthesizing, failing, picking, Env, StreamAction, header, chunk,
  returns, finish, stream_step, pick, advance,
}
use audio_server.Queue.Idle.{Idler, fire_idle}
use audio_server.Queue.System.{
  System, Config, ProviderConfig, Event, step, run, works, idles, work, idle, bare_manager,
  add_providers, add_group, add_groups, new_manager,
}

-- Once the job's channel is closed, its request holds no reference clip, name or text.
pub record IsCleared (j : Ptr) (m : Manager) : Type 0 where
  pub clip : (m.heap j).done ≡ true → (m.heap j).request.speaker_reference ≡ []
  pub filename : (m.heap j).done ≡ true → (m.heap j).request.speaker_reference_filename ≡ 0
  pub text : (m.heap j).done ≡ true → (m.heap j).request.speaker_reference_text ≡ 0

finish-IsCleared :
    (p : Name) (j a : Ptr) (r : SpeechResult) (e : Option Error) (env : Env) (m : Manager)
    → IsCleared j m
    → IsCleared j (finish p a r e env.now m)
unfolding finish
finish-IsCleared p j a r none env m v = ground (arith, v.clip, v.filename, v.text)
finish-IsCleared p j a r (some e) env m v = ground (arith, v.clip, v.filename, v.text)

pick-IsCleared :
    (p : Name) (j : Ptr) (env : Env) (m : Manager) (jobs : List Ptr)
    → IsCleared j m
    → IsCleared j (pick env.now p m jobs).1
unfolding pick
pick-IsCleared p j env m [] v = v
pick-IsCleared p j env m (a ∷ rest) v = ground (arith, v.clip, v.filename, v.text)

stream-IsCleared :
    (p : Name) (j a : Ptr) (meta : StreamMeta) (audio : Bytes) (env : Env) (m : Manager)
    (act : StreamAction)
    → IsCleared j m
    → IsCleared j (stream_step a meta audio env.now p m act).1
unfolding stream_step
stream-IsCleared p j a meta audio env m (header meta') v = v
stream-IsCleared p j a meta audio env m (chunk bytes taken) v =
    ground (arith, v.clip, v.filename, v.text)
stream-IsCleared p j a meta audio env m (returns none) v = finish-IsCleared p j a _ none env m v
stream-IsCleared p j a meta audio env m (returns (some e)) v =
    finish-IsCleared p j a no_result (some (external e)) env m v

advance-IsCleared :
    (l : Place) (env : Env) (p : Name) (j : Ptr) (m : Manager)
    → IsCleared j m
    → IsCleared j (advance l env p m).1
unfolding advance
advance-IsCleared picking env p j m v = pick-IsCleared p j env m _ v
advance-IsCleared (synthesizing a) env p j m v = finish-IsCleared p j a _ _ env m v
advance-IsCleared (stream_run a meta audio) env p j m v =
    stream-IsCleared p j a meta audio env m env.streaming v
advance-IsCleared (failing a e) env p j m v = finish-IsCleared p j a no_result (some e) env m v
advance-IsCleared _ env p j m v = ground (arith, v.clip, v.filename, v.text)

work-IsCleared :
    (i : ℕ) (env : Env) (j : Ptr) (s : System) (o : Option Worker)
    → IsCleared j s.manager
    → IsCleared j (work i env o s).manager
unfolding work
work-IsCleared i env j s none v = v
work-IsCleared i env j s (some w) v = advance-IsCleared w.place env w.provider j s.manager v

idle-IsCleared :
    (i : ℕ) (j : Ptr) (s : System) (o : Option Idler)
    → IsCleared j s.manager
    → IsCleared j (idle i o s).manager
unfolding idle fire_idle
idle-IsCleared i j s none v = v
idle-IsCleared i j s (some d) v = ground (arith, v.clip, v.filename, v.text)

step-IsCleared :
    (e : Event) (j : Ptr) (s : System) → IsCleared j s.manager → IsCleared j (step e s).manager
unfolding step
step-IsCleared (works i env) j s v = work-IsCleared i env j s _ v
step-IsCleared (idles i) j s v = idle-IsCleared i j s _ v
step-IsCleared _ j s v = ground (arith, v.clip, v.filename, v.text)

run-IsCleared :
    (es : List Event) (j : Ptr) (s : System)
    → IsCleared j s.manager
    → IsCleared j (run es s).manager
unfolding run
run-IsCleared [] j s v = v
run-IsCleared (e ∷ es) j s v = run-IsCleared es j (step e s) (step-IsCleared e j s v)

add_providers-heap : (cs : List ProviderConfig) (m : Manager) → (add_providers cs m).heap ≡ m.heap
unfolding add_providers
add_providers-heap [] m = refl
add_providers-heap (c ∷ cs) m = add_providers-heap cs _

add_group-heap : (cfg : Config) (p g : Name) (m : Manager) → (add_group cfg p g m).heap ≡ m.heap
unfolding add_group
add_group-heap cfg p g m = ground arith

add_groups-heap :
    (cfg : Config) (gs : List (Name × Name)) (m : Manager) → (add_groups cfg gs m).heap ≡ m.heap
unfolding add_groups
add_groups-heap cfg [] m = refl
add_groups-heap cfg ((p, g) ∷ rest) m =
    add_groups-heap cfg rest (add_group cfg p g m) ∙ add_group-heap cfg p g m

new_manager-IsCleared : (cfg : Config) (j : Ptr) → IsCleared j (new_manager cfg).manager
unfolding new_manager bare_manager
new_manager-IsCleared cfg j = record {
  clip = λ e. cc untouched;
  filename = λ e. cc untouched;
  text = λ e. cc untouched;
}
  where
    untouched :
        ((add_groups cfg cfg.resource_groups (add_providers cfg.providers (bare_manager cfg))).heap
          j).done
        ≡ false
    untouched =
        ap (λ h. (h j).done)
          (add_groups-heap cfg cfg.resource_groups (add_providers cfg.providers (bare_manager cfg))
            ∙ add_providers-heap cfg.providers (bare_manager cfg))

-- After any events at all, a job whose completion was signalled keeps no speaker reference clip,
-- file name or reference text in memory.
pub references-IsCleared :
    (cfg : Config) (es : List Event) (j : Ptr) → IsCleared j (run es (new_manager cfg)).manager
references-IsCleared cfg es j = run-IsCleared es j (new_manager cfg) (new_manager-IsCleared cfg j)
