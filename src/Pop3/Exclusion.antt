-- ===== src/Pop3/Exclusion.antt =====
-- Several sessions of internal/pop3, which share the locks and the store.
pub mod Grip
pub mod Alone
use mathlib.Core.Option.{some-injective, none-ne-some}
use briefmail.Base.{
  ℕ, ◌≡◌, refl, sym, ap, subst, ◌∙◌, ◌⊎◌, inl, inr, arith, Bool, true, false, Bool-cases, Option,
  none, some, Bytes, ◌==◌, if◌then◌else◌,
}
use briefmail.Outcome.{Result, ok, err}
use briefmail.Pop3.Handlers.{in_transaction}
use briefmail.Pop3.Handlers.Effect.{Effect, calm, opened, leaked}
use briefmail.Pop3.Proto.{verb_of, read, round, leave}
use briefmail.Pop3.Proto.Effects.{dispatch-Effect}
use briefmail.Pop3.Session.{Locks, set_lock, unlock, parse, Config, Session}
use briefmail.Storage.Cleaner.{Store}

-- The sessions that are being served, by a number for each.
pub record System : Type 0 where
  pub locks : Locks
  pub store : Store
  pub sessions : ℕ → Option Session

abbrev pub set_session : ℕ → Option Session → (ℕ → Option Session) → ℕ → Option Session
set_session i o sessions k = if i == k then o else sessions k

-- a session's view: it shares the locks and the store
abbrev pub within : System → Session → Session
within sys s = record s { locks = sys.locks; store = sys.store }

-- the system, with what a session has done to it
abbrev pub absorb : ℕ → Option Session → Session → System → System
absorb i o t sys = record {
  locks = t.locks;
  store = t.store;
  sessions = set_session i o sys.sessions;
}

-- One session goes on by a round or ends, another one starts, or the store changes because of what
-- other parts of the program do. A round counts as one step: of the locks it takes one at most, and
-- the mutex makes that one step.
pub data Step (cfg : Config) (sys : System) : System → Type 0 where
  starts :
      (i : ℕ) (s : Session)
      → sys.sessions i ≡ none
      → in_transaction s.state ≡ false
      → Step cfg sys (record sys { sessions = set_session i (some s) sys.sessions })
  serves :
      (i : ℕ) (s : Session)
      → sys.sessions i ≡ some s
      → Step cfg sys (absorb i (some (round cfg (within sys s)).1) (round cfg (within sys s)).1 sys)
  ends :
      (i : ℕ) (s : Session)
      → sys.sessions i ≡ some s
      → Step cfg sys (absorb i none (leave (within sys s)) sys)
  elsewhere : (store : Store) → Step cfg sys (record sys { store = store })

pub data Reach (cfg : Config) (start : System) : System → Type 0 where
  here : Reach cfg start start
  further : {sys sys' : System} → Reach cfg start sys → Step cfg sys sys' → Reach cfg start sys'
