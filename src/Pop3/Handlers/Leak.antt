-- ===== src/Pop3/Handlers/Leak.antt =====
-- PASS (internal/pop3/handler.go) when the entries of the mailbox cannot be listed.
use briefmail.Base.{arith, ℕ, ◌≡◌, refl, true, false, [], ◌∷◌, Bytes}
use briefmail.Outcome.{Error, ok, err}
use briefmail.Pop3.Handlers.{in_user, pass, log_in, lock_mailbox, open_mailbox}
use briefmail.Pop3.Handlers.Effect.{user-not_in}
use briefmail.Pop3.Proto.{leave}
use briefmail.Pop3.Session.{Command, args, lock, Config, Session}
use briefmail.Storage.Db
use briefmail.Storage.Db.{Db, authenticate}

-- When PASS has found the mailbox and taken its lock, and the entries cannot be listed, it returns
-- that error outside the transaction with the lock taken; so the lock is still taken after the end
-- of the session.
pub pass-leave :
    (cfg : Config) (c : Command) (s : Session) (secret : Bytes) (id : ℕ) (e : Error)
    → in_user s.state ≡ true
    → args c ≡ secret ∷ []
    → (authenticate cfg.bcrypt s.name secret s.store.db).0 ≡ ok (id, true)
    → s.locks.entries id ≡ false
    → (Db.entries id (authenticate cfg.bcrypt s.name secret s.store.db).1).0 ≡ err e
    → ((pass cfg c s).0 ≡ err e) × ((leave (pass cfg c s).1).locks.entries id ≡ true)
unfolding pass log_in lock_mailbox lock open_mailbox leave
pass-leave cfg c s secret id e due one found free failed =
    rw
      (
        pass,
        due,
        one,
        log_in,
        found,
        lock_mailbox,
        lock,
        free,
        open_mailbox,
        failed,
        leave,
        user-not_in s.state due,
      )
      (refl, ground arith)
