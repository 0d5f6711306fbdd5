-- ===== src/Tests/Connections.antt =====
-- The theorems on the start, the connections and the end of the servers at concrete runs: one SMTP
-- server that a signal stops.
use briefmail.Base.{
  refl, ◌≡◌, ◌↔◌, ◌++◌, true, false, none, some, List, [], ◌∷◌, Bytes, codes, equal, any,
  if◌then◌else◌,
}
use briefmail.Outcome.{Result, ok}
use briefmail.Base.{Option}
use briefmail.Settings.{Viper, default_of}
use briefmail.Start.{ServerConfig, smtp, pop3, Launch, InstanceManager, new_manager, start}
use briefmail.Start.Configured.{Agree, start-Agree}
use briefmail.Start.Early.{Reach-panicked}
use briefmail.Start.Graceful.{Ending, Reach-Ending}
use briefmail.Start.Process.{
  Process, Instance, Reach, live, selecting, stopped, returned, panicked, here, further, notifies,
  receives, binds, serves, releases, stops, returns, run, handle_signals, instance_of,
}
use briefmail.TextProto.Conn.Remote.{remote_addr_of, is_colon, remote_addr_of-host}
use briefmail.TextProto.Server.{
  listening, signals, shuts, drains, closes, ShutdownPhase, not_called, drained, signalled, waiting,
}

abbrev smtp_config : ServerConfig
smtp_config = record { address = codes ":25"; tls = true }

abbrev settings : Bytes → Result (List ServerConfig)
settings key = if equal key (codes "smtp") then ok (smtp_config ∷ []) else ok []

-- a configuration of TLS as a text
abbrev with_tls : Option Bytes
with_tls = some (codes "tls")

start-Agree_example :
    Agree
      (new_manager with_tls)
      (start settings (smtp ∷ pop3 ∷ []) (new_manager with_tls))
      (start settings (pop3 ∷ smtp ∷ []) (new_manager with_tls))
start-Agree_example = start-Agree settings (new_manager with_tls) smtp pop3

abbrev smtp_launch : Launch Bytes
smtp_launch = record { proto = smtp; tls_config = with_tls; address = codes ":25" }

abbrev manager : InstanceManager Bytes
manager = record { tls_config = with_tls; servers = smtp_launch ∷ []; wg = 1 }

abbrev begun : Process
begun = handle_signals manager

run_begins : run settings with_tls (smtp ∷ pop3 ∷ []) ≡ ok begun
unfolding run equal start
run_begins = refl

abbrev bound_at : ShutdownPhase → Instance
bound_at x = record { server = record (listening) { shutdown = x }; bound = true; released = false }

abbrev closed_at : Instance
closed_at = record (bound_at drained) {
  server = record (listening) { shutdown = drained; returned = true };
}

abbrev over : Process
over = record {
  instances = record (closed_at) { released = true } ∷ [];
  wg = 0;
  context = stopped;
  main = returned;
  pending = false;
  counting = false;
}

abbrev done_waiting : Process
done_waiting = record {
  instances = bound_at drained ∷ [];
  wg = 1;
  context = live;
  main = selecting;
  pending = false;
  counting = true;
}

drained_run : Reach begun done_waiting
drained_run =
    further
      (further
        (further
          (further
            (further (further here (binds [] [] (instance_of smtp_launch) refl refl refl))
              (notifies refl))
            (receives refl refl))
          (serves [] [] (bound_at not_called) refl refl (signals refl) refl))
        (serves [] [] (bound_at signalled) refl refl (shuts refl) refl))
      (serves [] [] (bound_at waiting) refl refl (drains refl refl) tt)

shutdown_run : Reach begun over
shutdown_run =
    further
      (further
        (further
          (further drained_run (serves [] [] (bound_at drained) refl refl (closes refl refl) tt))
          (releases [] [] closed_at refl refl refl refl refl))
        (stops refl refl refl))
      (returns refl refl)

Reach-Ending_example : Ending over
Reach-Ending_example =
    Reach-Ending settings with_tls (smtp ∷ pop3 ∷ []) run_begins shutdown_run refl

Reach-panicked_example : (p : Process) × Reach begun p × (p.main ≡ panicked)
Reach-panicked_example = Reach-panicked manager smtp_launch [] refl

remote_addr_of-host_example :
    (remote_addr_of (codes "::1" ++ (58 ∷ codes "25")) ≡ ok (codes "::1"))
    ↔ (any is_colon (codes "::1") ≡ false)
remote_addr_of-host_example = remote_addr_of-host (codes "::1") (codes "25")

abbrev pub unset_keys : Viper
unset_keys = record { configured = λ key. none; get_string = λ ds key. default_of key ds }
