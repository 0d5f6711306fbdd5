-- ===== src/Start/Graceful.antt =====
-- When cmd/briefmail/start.go lets the process end.
use briefmail.Base.{
  ◌≤◌, ◌≡◌, refl, sym, ◌∙◌, subst, true, Option, List, [], ◌∷◌, map, length, arith, Bytes, All,
}
use briefmail.Outcome.{Result, ok, err}
use briefmail.TextProto.Server
use briefmail.TextProto.Server.{
  is_over, closes, ShutdownPhase, not_called, signalled, waiting, drained, canceled, failed, Server,
  selects, accepts, fails, spawns, registers, removes, done, signals, shuts, drains, cancels,
  listening,
}
use briefmail.TextProto.Server.Graceful.{late, Reach-late}
use briefmail.Start.{ServerConfig, ProtoName, Launch, InstanceManager, new_manager, start}
use briefmail.Start.Process.{
  Context, unset, live, timed_out, stopped, forced, returned, Instance, Process, is_done, Reach,
  instance_of, handle_signals, run,
}
use briefmail.Start.Counted.{start-counted}
use briefmail.Start.Instances.{Fine, unreleased}
use briefmail.Start.Orderly.{Orderly, Reach-Orderly}

the_ok : {x y : Process} → ok x ≡ ok y → x ≡ y
the_ok q = cc

module _ {C : Type 0} where
  unreleased-map : (ls : List (Launch C)) → unreleased (map instance_of ls) ≡ length ls
  unfolding unreleased
  unreleased-map [] = omega arith
  unreleased-map (l ∷ ls) = omega (arith, unreleased-map ls)

  Fine-map : (ls : List (Launch C)) → All (Fine unset) (map instance_of ls)
  Fine-map [] = tt
  Fine-map (l ∷ ls) = (
    record { life = Server.here; counted = λ h. cc; clean = λ h g. cc; final = λ h. cc },
    Fine-map ls,
  )

  handle_signals-Orderly :
      (m : InstanceManager C) → m.wg ≡ length m.servers → Orderly (handle_signals m)
  handle_signals-Orderly m e = record {
    fine = Fine-map m.servers;
    group = e ∙ sym (unreleased-map m.servers);
    ready = λ _. refl;
    prepared = λ h. cc;
    fated = λ h. cc;
  }

  run-Orderly :
      (unmarshal_key : Bytes → Result (List ServerConfig)) (tls_config : Option C)
      (protos : List ProtoName) {b : Process}
      → run unmarshal_key tls_config protos ≡ ok b
      → Orderly b
  unfolding run
  run-Orderly unmarshal_key tls_config protos {b} e =
      go (start unmarshal_key protos (new_manager tls_config))
        (start-counted unmarshal_key tls_config protos) e
    where
      go :
          (r : Result (Unit {0}) × InstanceManager C)
          → (r.0 ≡ ok tt → r.1.wg ≡ length r.1.servers)
          → elim r.0 [ err e ↦ err e | ok _ ↦ ok (handle_signals r.1) ] ≡ ok b
          → Orderly b
      go (ok _, m) h q = subst Orderly (the_ok q) (handle_signals-Orderly m (h refl))
      go (err _, m) h q = cc

-- How handleSignals ends.
pub data Ending (p : Process) : Type 0 where
  in_time : p.context ≡ timed_out → Ending p
  by_force : p.context ≡ forced → Ending p
  gracefully : All (λ i. (i.server.shutdown ≡ drained) × (late i.server ≤ 1)) p.instances → Ending p

Fine-late :
    (xs : List Instance)
    → All (Fine stopped) xs
    → All (λ i. (i.server.shutdown ≡ drained) × (late i.server ≤ 1)) xs
Fine-late [] h = tt
Fine-late (x ∷ xs) h =
    ((h.0.final refl, Reach-late x.server h.0.life (h.0.final refl)), Fine-late xs h.1)

Orderly-Ending :
    (p : Process) (c : Context) → p.context ≡ c → Orderly p → is_done c ≡ true → Ending p
Orderly-Ending p unset e k h = cc
Orderly-Ending p live e k h = cc
Orderly-Ending p timed_out e k h = in_time e
Orderly-Ending p forced e k h = by_force e
Orderly-Ending p stopped e k h =
    gracefully (Fine-late p.instances (subst (λ c. All (Fine c) p.instances) e k.fine))

-- Whichever servers are configured, and however the steps of the main goroutine, of the shutdown and
-- of all servers and their handlers interleave: handleSignals returns only after the timeout, after
-- a second signal, or when the Shutdown of every server has waited for all its clients, so that at
-- most one handler of each server, one that its wait group did not count, is left.
pub Reach-Ending :
    {C : Type 0} (unmarshal_key : Bytes → Result (List ServerConfig)) (tls_config : Option C)
    (protos : List ProtoName) {b p : Process}
    → run unmarshal_key tls_config protos ≡ ok b
    → Reach b p
    → p.main ≡ returned
    → Ending p
Reach-Ending unmarshal_key tls_config protos {b} {p} e path h =
    let k = Reach-Orderly (run-Orderly unmarshal_key tls_config protos e) path in
    Orderly-Ending p p.context refl k (k.fated h)
