-- ===== src/TextProto/Server.antt =====
-- internal/textproto/server.go: Listen, its handlers, and Shutdown, as steps of one relation.
pub mod Graceful
use briefmail.Base.{
  ℕ, zero, suc, ◌-◌, ◌≡◌, Bool, true, false, List, [], ◌∷◌, ◌++◌, map, ◌==◌, if◌then◌else◌,
}
use briefmail.Outcome.{Error}

-- Where Listen is: at its select, in Accept, behind an Accept that returned a connection but before
-- wg.Add, or at an end, with ErrServerClosed or with another error.
pub data ListenPhase : Type 0 where
  selecting accepting accepted : ListenPhase
  server_closed : ListenPhase
  failed : Error → ListenPhase

-- A goroutine of `handle`: before it has put its connection into the map, in UpgradeTLS or in
-- proto.Handle, the same on a connection that Shutdown has closed, and behind the removal from the
-- map, before wg.Done.
pub data HandlerPhase : Type 0 where
  spawned serving broken deleted : HandlerPhase

-- Where Shutdown is: not called, behind the close of the channel, waiting, or behind the wait, after
-- all clients or after the context was canceled.
pub data ShutdownPhase : Type 0 where
  not_called signalled waiting drained canceled : ShutdownPhase

-- `conns` counts the entries of the map, `wg` is the counter of the wait group, and `returned` says
-- that Shutdown is behind its loop over the map.
pub record Server : Type 0 where
  pub listen : ListenPhase
  pub shutdown : ShutdownPhase
  pub handlers : List HandlerPhase
  pub conns : ℕ
  pub wg : ℕ
  pub returned : Bool

-- the channel `closing` is closed
abbrev pub is_closing : ShutdownPhase → Bool
is_closing not_called = false
is_closing _ = true

-- the listener is closed too
abbrev pub is_shut : ShutdownPhase → Bool
is_shut not_called = false
is_shut signalled = false
is_shut _ = true

-- Shutdown is behind the wait
abbrev pub is_over : ShutdownPhase → Bool
is_over drained = true
is_over canceled = true
is_over _ = false

-- the connection is in the map
abbrev pub in_service : HandlerPhase → Bool
in_service serving = true
in_service broken = true
in_service _ = false

-- `conn.raw.Close()`, for a connection in the map
abbrev pub break : HandlerPhase → HandlerPhase
break serving = broken
break h = h

-- what Listen does when Accept fails
unfoldable pub after_error : Error → ShutdownPhase → ListenPhase
after_error e x = if is_closing x then server_closed else failed e

-- the select of Listen
unfoldable pub select : ShutdownPhase → ListenPhase
select x = if is_closing x then server_closed else accepting

pub data Step (s : Server) : Server → Type 0 where
  selects : s.listen ≡ selecting → Step s (record s { listen = select s.shutdown })
  accepts :
      s.listen ≡ accepting → is_shut s.shutdown ≡ false → Step s (record s { listen = accepted })
  fails :
      (e : Error) → s.listen ≡ accepting → Step s (record s { listen = after_error e s.shutdown })
  -- wg.Add, and the start of the goroutine
  spawns :
      s.listen ≡ accepted
      → Step s (record s { listen = selecting; handlers = spawned ∷ s.handlers; wg = suc s.wg })
  registers :
      (xs ys : List HandlerPhase)
      → s.handlers ≡ xs ++ (spawned ∷ ys)
      → Step s (record s { handlers = xs ++ (serving ∷ ys); conns = suc s.conns })
  -- UpgradeTLS has failed, or Handle has returned
  removes :
      (xs ys : List HandlerPhase) (h : HandlerPhase)
      → in_service h ≡ true
      → s.handlers ≡ xs ++ (h ∷ ys)
      → Step s (record s { handlers = xs ++ (deleted ∷ ys); conns = s.conns - 1 })
  done :
      (xs ys : List HandlerPhase)
      → s.handlers ≡ xs ++ (deleted ∷ ys)
      → Step s (record s { handlers = xs ++ ys; wg = s.wg - 1 })
  signals : s.shutdown ≡ not_called → Step s (record s { shutdown = signalled })
  shuts : s.shutdown ≡ signalled → Step s (record s { shutdown = waiting })
  -- wg.Wait returns when the counter is 0
  drains : s.shutdown ≡ waiting → s.wg ≡ 0 → Step s (record s { shutdown = drained })
  cancels : s.shutdown ≡ waiting → Step s (record s { shutdown = canceled })
  closes :
      is_over s.shutdown ≡ true
      → s.returned ≡ false
      → Step s (record s { handlers = map break s.handlers; returned = true })

pub data Reach (start : Server) : Server → Type 0 where
  here : Reach start start
  further : {s s' : Server} → Reach start s → Step s s' → Reach start s'

-- Listen has opened the listener.
abbrev pub listening : Server
listening = record {
  listen = selecting;
  shutdown = not_called;
  handlers = [];
  conns = 0;
  wg = 0;
  returned = false;
}
