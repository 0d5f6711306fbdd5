-- ===== src/Tests/Sessions.antt =====
-- The theorems on sessions of POP3 at concrete inputs: a mailbox of ann, with the password "pw".
use briefmail.Base.{
  ◌&&◌, not, ◌==◌, ℕ, ◌≡◌, refl, true, false, Option, none, some, [], ◌∷◌, codes, equal,
}
use briefmail.Outcome.{close_session, other, ok, err}
use briefmail.Pop3.Exclusion.{System, set_session, within, absorb, starts, serves, here, further}
use briefmail.Pop3.Exclusion.Alone.{Reach-alone}
use briefmail.Pop3.Handlers.{pass, quit}
use briefmail.Pop3.Handlers.Removal.{has_entry, is_among, quit-has_entry}
use briefmail.Pop3.Handlers.Leak.{pass-leave}
use briefmail.Pop3.Proto.{round, handle, leave}
use briefmail.Pop3.Proto.Release.{handle-releases, handle-total}
use briefmail.Pop3.Session.{Command, Config, Session, s_user, args}
use briefmail.Storage.Cleaner.{Store}
use briefmail.Storage.Db
use briefmail.Storage.Db.{Bcrypt, authenticate}
use briefmail.TextProto.Dot.{read_line}
use briefmail.Tests.{store, tables, show_id, unlocked, pop3_session}

abbrev clear_text : Bcrypt
clear_text = record { generate = ok; matches = λ hash secret. equal hash secret }

abbrev server : Config
server = record { bcrypt = clear_text; tls_config = false; show_id = show_id }

abbrev with_ann : Store
with_ann = record store {
  db = record {
    tables = record tables {
      mailboxes = record { id = 1; name = codes "ann"; hash = codes "pw" } ∷ [];
    };
    faults = [];
  };
}

-- a client that logs in
abbrev newcomer : Session
newcomer = record pop3_session {
  conn = record pop3_session.conn {
    reader = record { tokens = codes "PASS pw" ∷ codes "QUIT" ∷ []; fault = none };
  };
  state = s_user;
  store = with_ann;
}

handle-total_example : (s' : Session) × (handle server newcomer ≡ some s')
handle-total_example = handle-total server newcomer

handle-releases_example :
    (handle-total server newcomer).0.locks.entries 1 ≡ newcomer.locks.entries 1
handle-releases_example =
    handle-releases server newcomer (handle-total server newcomer).0 1 refl refl
      (handle-total server newcomer).1

-- the listing of the entries fails
abbrev unlucky : Session
unlucky = record newcomer {
  store = record with_ann { db = record with_ann.db { faults = none ∷ some (other 1) ∷ [] } };
}

abbrev log_in_command : Command
log_in_command = record { head = codes "PASS"; tail = codes "pw" }

pass-leave_example :
    ((pass server log_in_command unlucky).0 ≡ err (other 1))
    × ((leave (pass server log_in_command unlucky).1).locks.entries 1 ≡ true)
unfolding args authenticate Db.entries equal
pass-leave_example =
    pass-leave server log_in_command unlucky (codes "pw") 1 (other 1) refl refl refl refl refl

abbrev nobody : ℕ → Option Session
nobody k = none

abbrev empty_system : System
empty_system = record { locks = record { entries = unlocked }; store = with_ann; sessions = nobody }

-- the session 4 starts, and logs in
abbrev started : System
started = record empty_system { sessions = set_session 4 (some newcomer) nobody }

abbrev logged_in : Session
logged_in = (round server (within started newcomer)).1

abbrev served : System
served = absorb 4 (some logged_in) logged_in started

Reach-alone_example : ◌≡◌ {A = ℕ} 4 4
unfolding round read_line pass Db.entries
Reach-alone_example =
    Reach-alone server empty_system served 4 4 logged_in logged_in (λ k. refl)
      (further (further here (starts 4 newcomer refl refl)) (serves 4 newcomer refl)) refl refl refl
      refl refl

-- the first message is marked
abbrev leaving : Session
leaving = record pop3_session { mailbox = record pop3_session.mailbox { marks = 0 ∷ [] } }

abbrev quit_command : Command
quit_command = record { head = codes "QUIT"; tail = [] }

quit-has_entry_example :
    ((quit quit_command leaving).0 ≡ err close_session)
    × (has_entry 1 7 (quit quit_command leaving).1.store.db.tables.entries
        ≡ (has_entry 1 7 leaving.store.db.tables.entries && not (1 == 1 && is_among 7 (7 ∷ []))))
quit-has_entry_example = quit-has_entry quit_command leaving (7 ∷ []) 1 7 refl refl refl
