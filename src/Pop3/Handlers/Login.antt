-- ===== src/Pop3/Handlers/Login.antt =====
-- What PASS of internal/pop3/handler.go opens.
use briefmail.Base.{ℕ, ◌≡◌, refl, ap, true, false, List, [], ◌∷◌, ◌++◌, append_assoc, Bytes, codes}
use briefmail.Outcome.{ok}
use briefmail.Pop3.Handlers.{pass, log_in, lock_mailbox, open_mailbox, in_user}
use briefmail.Pop3.Session.{
  Command, args, s_user, s_transaction, Config, Session, lock, set_lock, send, write_to,
}
use briefmail.Storage.Db.{Entry, Db, authenticate, entries, total_size, transact, run_tx, finish_tx}

authenticate-same :
    (cfg : Config) (name secret : Bytes) (d : Db)
    → d.faults ≡ []
    → (authenticate cfg.bcrypt name secret d).1 ≡ d
unfolding authenticate transact run_tx finish_tx
authenticate-same cfg name secret d h = rw h refl

entries-same : (box : ℕ) (d : Db) → d.faults ≡ [] → (entries box d).1 ≡ d
unfolding entries transact run_tx finish_tx
entries-same box d h = rw h refl

-- a session that PASS has opened
abbrev pub opened : Session → ℕ → List Entry → Session
opened s box list = record s {
  conn = record s.conn { out = s.conn.out ++ codes "+OK I knew it was you!\r\n" };
  locks = record { entries = set_lock s.locks.entries box true };
  mailbox = record s.mailbox { id = box; marks = []; entries = list; size = total_size list };
  state = s_transaction;
}

pub pass-opened :
    (cfg : Config) (c : Command) (s : Session) (secret : Bytes) (box : ℕ) (list : List Entry)
    → s.state ≡ s_user
    → args c ≡ secret ∷ []
    → s.conn.faults ≡ []
    → s.store.db.faults ≡ []
    → (authenticate cfg.bcrypt s.name secret s.store.db).0 ≡ ok (box, true)
    → s.locks.entries box ≡ false
    → (entries box s.store.db).0 ≡ ok (list, total_size list)
    → pass cfg c s ≡ (ok tt, opened s box list)
unfolding pass log_in lock_mailbox open_mailbox lock send write_to
pass-opened cfg c s secret box list st one calm_conn calm_db known free listed =
    rw
      (
        ap in_user st,
        one,
        known,
        authenticate-same cfg s.name secret s.store.db calm_db,
        free,
        listed,
        entries-same box s.store.db calm_db,
        calm_conn,
      )
      (simp append_assoc)
