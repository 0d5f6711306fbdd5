-- ===== src/Start/Process.antt =====
-- cmd/briefmail/start.go: handleSignals, the goroutines of shutdown, shutdownInstance and
-- startInstance, and the servers that they drive, as steps of one relation.
use briefmail.Base.{ℕ, ◌-◌, ◌≡◌, Bool, true, false, Option, List, ◌∷◌, ◌++◌, map}
use briefmail.Outcome.{Error, Result, ok, err}
use briefmail.TextProto.Server
use briefmail.TextProto.Server.{
  ShutdownPhase, not_called, signalled, waiting, drained, canceled, failed, Server, selects,
  accepts, fails, spawns, registers, removes, done, signals, shuts, drains, cancels, closes,
  is_over, listening,
}
use briefmail.Base.{Bytes}
use briefmail.Start.{ServerConfig, ProtoName, Launch, InstanceManager, new_manager, start}

-- The context of WithTimeout, with what ended it: the timeout, the call of cancelFunc in `shutdown`,
-- or that behind the second signal.
pub data Context : Type 0 where
  unset live timed_out stopped forced : Context

-- Where the main goroutine is: before the first signal, in the select, behind handleSignals, or the
-- process has ended by logrus.Fatal or by a panic.
pub data MainPhase : Type 0 where
  attentive selecting returned fatal panicked : MainPhase

-- `bound` says that Listen has set the listener, `released` that wg.Done was called.
pub record Instance : Type 0 where
  pub server : Server
  pub bound : Bool
  pub released : Bool

-- `pending` is a signal in the channel, which holds one; `counting` says that `shutdown` is in
-- wg.Wait.
pub record Process : Type 0 where
  pub instances : List Instance
  pub wg : ℕ
  pub context : Context
  pub main : MainPhase
  pub pending : Bool
  pub counting : Bool

abbrev pub is_running : MainPhase → Bool
is_running attentive = true
is_running selecting = true
is_running _ = false

-- ctx.Done() is closed
abbrev pub is_done : Context → Bool
is_done unset = false
is_done live = false
is_done _ = true

-- Only the first reason counts.
abbrev pub cancel : Context → Context → Context
cancel why live = why
cancel why c = c

abbrev pub was_called : MainPhase → Bool
was_called attentive = false
was_called _ = true

-- Which steps of its server the process allows: Listen works once it is bound, Shutdown is called
-- behind the first signal, closes a listener, and gives up only when the context is done.
abbrev pub Allowed : Process → Instance → {s t : Server} → Server.Step s t → Type 0
Allowed p i (selects _) = i.bound ≡ true
Allowed p i (accepts _ _) = i.bound ≡ true
Allowed p i (fails _ _) = i.bound ≡ true
Allowed p i (spawns _) = i.bound ≡ true
Allowed p i (signals _) = was_called p.main ≡ true
Allowed p i (shuts _) = i.bound ≡ true
Allowed p i (cancels _) = is_done p.context ≡ true
Allowed p i (registers _ _ _) = Unit
Allowed p i (removes _ _ _ _ _) = Unit
Allowed p i (closes _ _) = Unit
Allowed p i (done _ _ _) = Unit
Allowed p i (drains _ _) = Unit

pub data Step (p : Process) : Process → Type 0 where
  -- SIGINT or SIGTERM
  notifies : is_running p.main ≡ true → Step p (record p { pending = true })
  -- the first receive, WithTimeout, and the start of `shutdown`
  receives :
      p.main ≡ attentive
      → p.pending ≡ true
      → Step p (record p { main = selecting; pending = false; context = live; counting = true })
  forces :
      p.main ≡ selecting
      → p.pending ≡ true
      → Step p (record p { main = returned; pending = false; context = cancel forced p.context })
  returns : p.main ≡ selecting → is_done p.context ≡ true → Step p (record p { main = returned })
  times_out :
      is_running p.main ≡ true → p.context ≡ live → Step p (record p { context = timed_out })
  -- wg.Wait of `shutdown` returns, and it calls cancelFunc.
  stops :
      is_running p.main ≡ true
      → p.counting ≡ true
      → p.wg ≡ 0
      → Step p (record p { counting = false; context = cancel stopped p.context })
  binds :
      (xs ys : List Instance) (i : Instance)
      → is_running p.main ≡ true
      → p.instances ≡ xs ++ (i ∷ ys)
      → i.bound ≡ false
      → Step p (record p { instances = xs ++ (record i { bound = true } ∷ ys) })
  serves :
      (xs ys : List Instance) (i : Instance) {t : Server}
      → is_running p.main ≡ true
      → p.instances ≡ xs ++ (i ∷ ys)
      → (step : Server.Step i.server t) → Allowed p i step
      → Step p (record p { instances = xs ++ (record i { server = t } ∷ ys) })
  -- wg.Done of shutdownInstance
  releases :
      (xs ys : List Instance) (i : Instance)
      → is_running p.main ≡ true
      → p.instances ≡ xs ++ (i ∷ ys)
      → is_over i.server.shutdown ≡ true
      → i.server.returned ≡ true
      → i.released ≡ false
      → Step p (record p { instances = xs ++ (record i { released = true } ∷ ys); wg = p.wg - 1 })
  -- net.Listen or Accept has failed: logrus.Fatal of startInstance
  cannot_bind :
      (xs ys : List Instance) (i : Instance)
      → is_running p.main ≡ true
      → p.instances ≡ xs ++ (i ∷ ys)
      → i.bound ≡ false
      → Step p (record p { main = fatal })
  dies :
      (xs ys : List Instance) (i : Instance) (e : Error)
      → is_running p.main ≡ true
      → p.instances ≡ xs ++ (i ∷ ys)
      → i.server.listen ≡ failed e
      → Step p (record p { main = fatal })
  -- Shutdown closes a listener that is still nil.
  panics :
      (xs ys : List Instance) (i : Instance)
      → is_running p.main ≡ true
      → p.instances ≡ xs ++ (i ∷ ys)
      → i.server.shutdown ≡ signalled
      → i.bound ≡ false
      → Step p (record p { main = panicked })

pub data Reach (begin : Process) : Process → Type 0 where
  here : Reach begin begin
  further : {p q : Process} → Reach begin p → Step p q → Reach begin q

-- startInstance has been started for each server, and no Listen has opened its port.
abbrev pub instance_of : {C : Type 0} → Launch C → Instance
instance_of l = record { server = listening; bound = false; released = false }

-- handleSignals begins.
abbrev pub handle_signals : {C : Type 0} → InstanceManager C → Process
handle_signals m = record {
  instances = map instance_of m.servers;
  wg = m.wg;
  context = unset;
  main = attentive;
  pending = false;
  counting = false;
}

-- (*startCommand).run: its error, or the process as handleSignals begins
unfoldable pub run :
    {C : Type 0} → (Bytes → Result (List ServerConfig)) → Option C → List ProtoName → Result Process
run unmarshal_key tls_config protos =
    let r = start unmarshal_key protos (new_manager tls_config) in
    elim r.0 [ err e ↦ err e | ok _ ↦ ok (handle_signals r.1) ]
