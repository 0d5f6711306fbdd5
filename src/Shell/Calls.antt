-- ===== src/Shell/Calls.antt =====
-- The calls of internal/storage/db.go on a database that does not fail.
use briefmail.Base.{
  ℕ, suc, ◌≡◌, refl, ap, ◌⊎◌, inl, inr, true, false, Bool-cases, Option, none, some, [], ◌∷◌, ◌++◌,
  Bytes, any, equal, ltb,
}
use briefmail.Outcome.{Error, no_rows, constraint, Result, ok, err, Exec}
use briefmail.Storage.Db
use briefmail.Storage.Db.{
  Db, Bcrypt, add_mailbox, set_password, authenticate, exec, set_hash, transact, run_tx, finish_tx,
}
use briefmail.Storage.Tables.{MailboxRow, Tables, insert_mailbox, update_hash}
use briefmail.Shell.Rows.{row_of, checks}

-- a database that does not fail
abbrev pub working : Tables → Db
working t = record { tables = t; faults = [] }

pub authenticate-working :
    (bcrypt : Bcrypt) (name pass : Bytes) (t : Tables)
    → (authenticate bcrypt name pass (working t)).0
      ≡ ok (checks bcrypt pass (row_of name t.mailboxes))
unfolding authenticate transact run_tx finish_tx
authenticate-working bcrypt name pass t = refl

transact-runs :
    {A : Type 0} (fn : Exec Tables A) (t t' : Tables) (a : A)
    → fn t ≡ (ok a, t')
    → transact fn (working t) ≡ (ok a, working t')
unfolding transact run_tx finish_tx
transact-runs fn t t' a p = ap (λ r. finish_tx r (working t)) p

transact-fails :
    {A : Type 0} (fn : Exec Tables A) (t t' : Tables) (e : Error)
    → fn t ≡ (err e, t')
    → transact fn (working t) ≡ (err e, working t)
unfolding transact run_tx finish_tx
transact-fails fn t t' e p = ap (λ r. finish_tx r (working t)) p

abbrev pub id_of : Option MailboxRow → Result ℕ
id_of none = err no_rows
id_of (some r) = ok r.id

pub mailbox-working :
    (name : Bytes) (t : Tables) (o : Option MailboxRow)
    → row_of name t.mailboxes ≡ o
    → Db.mailbox name (working t) ≡ (id_of o, working t)
unfolding Db.mailbox transact run_tx finish_tx
mailbox-working name t none p = rw p refl
mailbox-working name t (some r) p = rw p refl

-- the tables with another mailbox
abbrev pub with_mailbox : Bytes → Bytes → Tables → Tables
with_mailbox name hash t = record t {
  mailboxes = t.mailboxes ++ (record { id = suc t.last_id; name = name; hash = hash } ∷ []);
  last_id = suc t.last_id;
}

-- AddMailbox adds the row, or nothing
pub data IsAdded (bcrypt : Bcrypt) (name pass : Bytes) (t : Tables) (r : Result ℕ × Db)
    : Type 0 where
  inserted :
      (hash : Bytes)
      → bcrypt.generate pass ≡ ok hash
      → any (λ (x : MailboxRow). equal x.name name) t.mailboxes ≡ false
      → r ≡ (ok (suc t.last_id), working (with_mailbox name hash t))
      → IsAdded bcrypt name pass t r
  refused : (e : Error) → r ≡ (err e, working t) → IsAdded bcrypt name pass t r

pub add_mailbox-IsAdded :
    (bcrypt : Bcrypt) (name pass : Bytes) (t : Tables)
    → IsAdded bcrypt name pass t (add_mailbox bcrypt name pass (working t))
unfolding add_mailbox transact run_tx finish_tx insert_mailbox
add_mailbox-IsAdded bcrypt name pass t =
    by_hash (bcrypt.generate pass) refl
      (Bool-cases (any (λ (x : MailboxRow). equal x.name name) t.mailboxes))
  where
    by_hash :
        (x : Result Bytes)
        → bcrypt.generate pass ≡ x
        → (any (λ (x : MailboxRow). equal x.name name) t.mailboxes ≡ true)
          ⊎ (any (λ (x : MailboxRow). equal x.name name) t.mailboxes ≡ false)
        → IsAdded bcrypt name pass t (add_mailbox bcrypt name pass (working t))
    by_hash (err e) p taken = refused e (rw (p, add_mailbox) refl)
    by_hash (ok hash) p (inl taken) = refused constraint (rw (p, add_mailbox, taken) refl)
    by_hash (ok hash) p (inr free) = inserted hash p free (rw (p, add_mailbox, free) refl)

-- SetPassword changes the rows of the name, or nothing
pub data IsChanged (bcrypt : Bcrypt) (name pass : Bytes) (t : Tables) (r : Result (Unit {0}) × Db)
    : Type 0 where
  updated :
      (hash : Bytes)
      → bcrypt.generate pass ≡ ok hash
      → r ≡ (ok tt, working (record t { mailboxes = (update_hash name hash t.mailboxes).0 }))
      → IsChanged bcrypt name pass t r
  unchanged : (e : Error) → r ≡ (err e, working t) → IsChanged bcrypt name pass t r

pub set_password-IsChanged :
    (bcrypt : Bcrypt) (name pass : Bytes) (t : Tables)
    → IsChanged bcrypt name pass t (set_password bcrypt name pass (working t))
unfolding set_password transact run_tx finish_tx
set_password-IsChanged bcrypt name pass t = by_hash (bcrypt.generate pass) refl
  where
    by_affected :
        (hash : Bytes)
        → bcrypt.generate pass ≡ ok hash
        → (ltb (update_hash name hash t.mailboxes).1 1 ≡ true)
          ⊎ (ltb (update_hash name hash t.mailboxes).1 1 ≡ false)
        → IsChanged bcrypt name pass t (set_password bcrypt name pass (working t))
    by_affected hash p (inl nobody) = unchanged no_rows (
        rw (set_password, p)
          (transact-fails (exec (set_hash name hash)) t t no_rows (rw (exec, nobody) refl)))
    by_affected hash p (inr somebody) = updated hash p (
        rw (set_password, p)
          (transact-runs (exec (set_hash name hash)) t _ tt (rw (exec, somebody) refl)))

    by_hash :
        (x : Result Bytes)
        → bcrypt.generate pass ≡ x
        → IsChanged bcrypt name pass t (set_password bcrypt name pass (working t))
    by_hash (err e) p = unchanged e (rw (p, set_password) refl)
    by_hash (ok hash) p =
        by_affected hash p (Bool-cases (ltb (update_hash name hash t.mailboxes).1 1))
