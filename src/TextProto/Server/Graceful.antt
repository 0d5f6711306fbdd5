-- ===== src/TextProto/Server/Graceful.antt =====
-- What the wait group and the map of internal/textproto/server.go count, and what a graceful
-- Shutdown leaves.
use briefmail.Base.{
  ℕ, suc, ◌+◌, ◌≤◌, ◌≡◌, refl, sym, ap, ◌∙◌, false, List, [], ◌∷◌, ◌++◌, map, length, true,
  length-append, arith,
}
use briefmail.Outcome.{Error}
use briefmail.TextProto.Server.{
  ListenPhase, selecting, accepting, accepted, server_closed, failed, HandlerPhase, spawned,
  serving, broken, deleted, in_service, break, ShutdownPhase, not_called, signalled, waiting,
  drained, canceled, Server, is_shut, after_error, select, Step, selects, accepts, fails, spawns,
  registers, removes, done, signals, shuts, drains, cancels, closes, Reach, here, further,
  listening,
}

-- how many handlers have their connection in the map
abbrev in_map : List HandlerPhase → ℕ
in_map [] = 0
in_map (serving ∷ hs) = suc (in_map hs)
in_map (broken ∷ hs) = suc (in_map hs)
in_map (spawned ∷ hs) = in_map hs
in_map (deleted ∷ hs) = in_map hs

in_map-append : (xs ys : List HandlerPhase) → in_map (xs ++ ys) ≡ in_map xs + in_map ys
in_map-append [] ys = omega arith
in_map-append (spawned ∷ xs) ys = in_map-append xs ys
in_map-append (serving ∷ xs) ys = omega (arith, in_map-append xs ys)
in_map-append (broken ∷ xs) ys = omega (arith, in_map-append xs ys)
in_map-append (deleted ∷ xs) ys = in_map-append xs ys

in_map-in_service :
    (h : HandlerPhase) (hs : List HandlerPhase)
    → in_service h ≡ true
    → in_map (h ∷ hs) ≡ suc (in_map hs)
in_map-in_service spawned hs p = cc
in_map-in_service serving hs p = refl
in_map-in_service broken hs p = refl
in_map-in_service deleted hs p = cc

in_map-break : (hs : List HandlerPhase) → in_map (map break hs) ≡ in_map hs
in_map-break [] = refl
in_map-break (spawned ∷ hs) = in_map-break hs
in_map-break (serving ∷ hs) = omega (arith, in_map-break hs)
in_map-break (broken ∷ hs) = omega (arith, in_map-break hs)
in_map-break (deleted ∷ hs) = in_map-break hs

length-break : (hs : List HandlerPhase) → length (map break hs) ≡ length hs
length-break [] = refl
length-break (h ∷ hs) = omega (arith, length-break hs)

-- a connection that Accept has returned, and that is no handler yet
abbrev pub underway : ListenPhase → ℕ
underway accepted = 1
underway _ = 0

-- The handlers that may still run when the wait is over.
abbrev pub late : Server → ℕ
late s = length s.handlers + underway s.listen

-- The wait group counts the handlers, and the map those that serve.
record Counts (s : Server) : Type 0 where
  group : s.wg ≡ length s.handlers
  map_size : s.conns ≡ in_map s.handlers

record Sound (s : Server) : Type 0 where
  counts : Counts s
  few : s.shutdown ≡ drained → late s ≤ 1

underway-le : (x : ListenPhase) → underway x ≤ 1
underway-le accepted = omega arith
underway-le selecting = omega arith
underway-le accepting = omega arith
underway-le server_closed = omega arith
underway-le (failed e) = omega arith

select-underway : (x : ShutdownPhase) → underway (select x) ≡ 0
unfolding select
select-underway not_called = refl
select-underway signalled = refl
select-underway waiting = refl
select-underway drained = refl
select-underway canceled = refl

after_error-underway : (e : Error) (x : ShutdownPhase) → underway (after_error e x) ≡ 0
unfolding after_error
after_error-underway e not_called = refl
after_error-underway e signalled = refl
after_error-underway e waiting = refl
after_error-underway e drained = refl
after_error-underway e canceled = refl

-- a handler in the middle of the list
length-middle :
    (xs ys : List HandlerPhase) (h : HandlerPhase)
    → length (xs ++ (h ∷ ys)) ≡ suc (length xs + length ys)
length-middle xs ys h = omega (arith, length-append xs (h ∷ ys))

shut_cannot : {A : Type 0} {x : ShutdownPhase} → x ≡ drained → is_shut x ≡ false → A
shut_cannot p q = cc (sym (ap is_shut p) ∙ q)

module _ {s : Server} (k : Sound s) where
  Step-Sound : {t : Server} → Step s t → Sound t
  Step-Sound (selects at) = record {
    counts = record { group = k.counts.group; map_size = k.counts.map_size };
    few = λ p. omega (arith, k.few p, select-underway s.shutdown);
  }
  Step-Sound (accepts at unshut) = record {
    counts = record { group = k.counts.group; map_size = k.counts.map_size };
    few = λ p. shut_cannot p unshut;
  }
  Step-Sound (fails e at) = record {
    counts = record { group = k.counts.group; map_size = k.counts.map_size };
    few = λ p. omega (arith, k.few p, after_error-underway e s.shutdown);
  }
  Step-Sound (spawns at) = record {
    counts = record { group = omega (arith, k.counts.group); map_size = k.counts.map_size };
    few = λ p. omega (arith, k.few p, ap underway at);
  }
  Step-Sound (registers xs ys at) = record {
    counts = record {
      group = omega (
        arith,
        k.counts.group,
        ap length at,
        length-middle xs ys spawned,
        length-middle xs ys serving,
      );
      map_size = omega (
        arith,
        k.counts.map_size,
        ap in_map at,
        in_map-append xs (spawned ∷ ys),
        in_map-append xs (serving ∷ ys),
      );
    };
    few = λ p.
        omega
          (arith, k.few p, ap length at, length-middle xs ys spawned, length-middle xs ys serving);
  }
  Step-Sound (removes xs ys h p at) = record {
    counts = record {
      group =
          omega (
            arith,
            k.counts.group,
            ap length at,
            length-middle xs ys h,
            length-middle xs ys deleted,
          );
      map_size = omega (
        arith,
        k.counts.map_size,
        ap in_map at,
        in_map-append xs (h ∷ ys),
        in_map-in_service h ys p,
        in_map-append xs (deleted ∷ ys),
      );
    };
    few = λ q.
        omega (arith, k.few q, ap length at, length-middle xs ys h, length-middle xs ys deleted);
  }
  Step-Sound (done xs ys at) = record {
    counts = record {
      group =
          omega
            (arith, k.counts.group, ap length at, length-middle xs ys deleted, length-append xs ys);
      map_size = omega (
        arith,
        k.counts.map_size,
        ap in_map at,
        in_map-append xs (deleted ∷ ys),
        in_map-append xs ys,
      );
    };
    few =
        λ p. omega (arith, k.few p, ap length at, length-middle xs ys deleted, length-append xs ys);
  }
  Step-Sound (signals at) = record {
    counts = record { group = k.counts.group; map_size = k.counts.map_size };
    few = λ p. cc;
  }
  Step-Sound (shuts at) = record {
    counts = record { group = k.counts.group; map_size = k.counts.map_size };
    few = λ p. cc;
  }
  Step-Sound (drains at empty) = record {
    counts = record { group = k.counts.group; map_size = k.counts.map_size };
    few = λ p. omega (arith, k.counts.group, empty, underway-le s.listen);
  }
  Step-Sound (cancels at) = record {
    counts = record { group = k.counts.group; map_size = k.counts.map_size };
    few = λ p. cc;
  }
  Step-Sound (closes at first) = record {
    counts = record {
      group = omega (arith, k.counts.group, length-break s.handlers);
      map_size = omega (arith, k.counts.map_size, in_map-break s.handlers);
    };
    few = λ p. omega (arith, k.few p, length-break s.handlers);
  }

Reach-Sound : {s : Server} → Reach listening s → Sound s
Reach-Sound here = record { counts = record { group = refl; map_size = refl }; few = λ p. cc }
Reach-Sound (further before step) = Step-Sound (Reach-Sound before) step

-- After a Shutdown that has waited for all clients, at most one handler runs or is still to be
-- started: one whose connection Accept had returned before the listener was closed, but which the
-- wait group did not count yet.
pub Reach-late : (s : Server) → Reach listening s → s.shutdown ≡ drained → late s ≤ 1
Reach-late s path p = (Reach-Sound path).few p
