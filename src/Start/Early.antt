-- ===== src/Start/Early.antt =====
-- A signal that cmd/briefmail/start.go receives before Listen has opened its port.
use briefmail.Base.{◌≡◌, refl, ap, map, List, [], ◌∷◌}
use briefmail.TextProto.Server.{signals, listening, signalled}
use briefmail.Start.{Launch, InstanceManager}
use briefmail.Start.Process.{
  Process, panicked, notifies, receives, serves, panics, Reach, here, further, handle_signals,
  instance_of,
}

-- With a server configured, a first signal can end the process by a panic: Shutdown closes the
-- listener of a server whose Listen has not set it yet.
pub Reach-panicked :
    {C : Type 0} (m : InstanceManager C) (l : Launch C) (ls : List (Launch C))
    → m.servers ≡ l ∷ ls
    → (p : Process) × Reach (handle_signals m) p × (p.main ≡ panicked)
Reach-panicked m l ls e = (
  _,
  further
      (further (further (further here (notifies refl)) (receives refl refl)) (
        serves [] (map instance_of ls) (instance_of l) refl (ap (map instance_of) e) (signals refl)
          refl))
      (panics [] (map instance_of ls)
        (record (instance_of l) { server = record (listening) { shutdown = signalled } }) refl refl
        refl refl),
  refl,
)
