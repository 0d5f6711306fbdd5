-- ===== src/Shell/Ends.antt =====
-- How the commands of cmd/briefmail/shell.go end.
use briefmail.Base.{
  ℕ, suc, ◌≡◌, ◌≢◌, refl, sym, ap, subst, false, Option, none, some, [], ◌∷◌, Bytes, any, equal,
}
use briefmail.Outcome.{Error, no_rows, Result, ok, err}
use briefmail.Shell.{
  Answer, failed, added, changed, name_taken, no_such_mailbox, empty_password, could_not_add,
  could_not_update, add_with, add_mailbox_cmd, change_with, change_mailbox_password,
}
use briefmail.Storage.Db.{Db, Bcrypt, add_mailbox, set_password}
use briefmail.Storage.Tables.{MailboxRow, Tables, update_hash}
use briefmail.Shell.Rows.{row_of}
use briefmail.Shell.Calls.{
  working, mailbox-working, with_mailbox, IsAdded, inserted, refused, IsChanged, updated, unchanged,
  add_mailbox-IsAdded, set_password-IsChanged,
}

-- "mailbox add" adds a row and says so, or changes nothing and says that.
pub data AddEnds (bcrypt : Bcrypt) (name pass : Bytes) (t : Tables) (r : Answer × Db) : Type 0 where
  done :
      (hash : Bytes)
      → bcrypt.generate pass ≡ ok hash
      → any (λ (x : MailboxRow). equal x.name name) t.mailboxes ≡ false
      → r ≡ (added (suc t.last_id), working (with_mailbox name hash t))
      → AddEnds bcrypt name pass t r
  undone :
      (a : Answer) → ((id : ℕ) → a ≢ added id) → r ≡ (a, working t) → AddEnds bcrypt name pass t r

-- the ends of the commands, on what the database returns
abbrev after_add : Result ℕ × Db → Answer × Db
after_add r = elim r.0 [ err e ↦ (could_not_add e, r.1) | ok id ↦ (added id, r.1) ]

abbrev after_change : Bytes → Result (Unit {0}) × Db → Answer × Db
after_change name r = elim r.0 [ err e ↦ (could_not_update e, r.1) | ok _ ↦ (changed name, r.1) ]

add_with-AddEnds :
    (bcrypt : Bcrypt) (name pass : Bytes) (t : Tables)
    → AddEnds bcrypt name pass t (add_with bcrypt name (ok pass) (working t))
unfolding add_with
add_with-AddEnds bcrypt name [] t = undone empty_password (λ id p. cc) refl
add_with-AddEnds bcrypt name (c ∷ cs) t = by_result (add_mailbox-IsAdded bcrypt name (c ∷ cs) t)
  where
    by_result :
        IsAdded bcrypt name (c ∷ cs) t (add_mailbox bcrypt name (c ∷ cs) (working t))
        → AddEnds bcrypt name (c ∷ cs) t (add_with bcrypt name (ok (c ∷ cs)) (working t))
    by_result (inserted hash g free p) = done hash g free (ap after_add p)
    by_result (refused e p) = undone (could_not_add e) (λ id q. cc) (ap after_add p)

pub add_mailbox_cmd-AddEnds :
    (bcrypt : Bcrypt) (name pass : Bytes) (t : Tables)
    → AddEnds bcrypt name pass t (add_mailbox_cmd bcrypt (name ∷ []) (ok pass) (working t))
unfolding add_mailbox_cmd
add_mailbox_cmd-AddEnds bcrypt name pass t = by_row (row_of name t.mailboxes) refl
  where
    on_lookup : Result ℕ × Db → Answer × Db
    on_lookup r = elim r.0 [
      | ok id ↦ (name_taken, r.1)
      | err no_rows ↦ add_with bcrypt name (ok pass) r.1
      | err e ↦ (failed e, r.1)
    ]

    by_row :
        (o : Option MailboxRow)
        → row_of name t.mailboxes ≡ o
        → AddEnds bcrypt name pass t (add_mailbox_cmd bcrypt (name ∷ []) (ok pass) (working t))
    by_row none p =
        subst (AddEnds bcrypt name pass t) (sym (ap on_lookup (mailbox-working name t none p)))
          (add_with-AddEnds bcrypt name pass t)
    by_row (some r) p =
        undone name_taken (λ id q. cc) (ap on_lookup (mailbox-working name t (some r) p))

-- "mailbox passwd" changes the hash and says so, or changes nothing and says that.
pub data ChangeEnds (bcrypt : Bcrypt) (name pass : Bytes) (t : Tables) (r : Answer × Db)
    : Type 0 where
  replaced :
      (row : MailboxRow) (hash : Bytes)
      → row_of name t.mailboxes ≡ some row
      → bcrypt.generate pass ≡ ok hash
      → r ≡ (changed name, working (record t { mailboxes = (update_hash name hash t.mailboxes).0 }))
      → ChangeEnds bcrypt name pass t r
  unreplaced :
      (a : Answer) → a ≢ changed name → r ≡ (a, working t) → ChangeEnds bcrypt name pass t r

change_with-ChangeEnds :
    (bcrypt : Bcrypt) (name pass : Bytes) (t : Tables) (row : MailboxRow)
    → row_of name t.mailboxes ≡ some row
    → ChangeEnds bcrypt name pass t (change_with bcrypt name (ok pass) (working t))
unfolding change_with
change_with-ChangeEnds bcrypt name [] t row found = unreplaced empty_password (λ p. cc) refl
change_with-ChangeEnds bcrypt name (c ∷ cs) t row found =
    by_result (set_password-IsChanged bcrypt name (c ∷ cs) t)
  where
    by_result :
        IsChanged bcrypt name (c ∷ cs) t (set_password bcrypt name (c ∷ cs) (working t))
        → ChangeEnds bcrypt name (c ∷ cs) t (change_with bcrypt name (ok (c ∷ cs)) (working t))
    by_result (updated hash g p) = replaced row hash found g (ap (after_change name) p)
    by_result (unchanged e p) = unreplaced (could_not_update e) (λ q. cc) (ap (after_change name) p)

pub change-ChangeEnds :
    (bcrypt : Bcrypt) (name pass : Bytes) (t : Tables)
    → ChangeEnds bcrypt name pass t
        (change_mailbox_password bcrypt (name ∷ []) (ok pass) (working t))
unfolding change_mailbox_password
change-ChangeEnds bcrypt name pass t = by_row (row_of name t.mailboxes) refl
  where
    on_lookup : Result ℕ × Db → Answer × Db
    on_lookup r = elim r.0 [
      | ok id ↦ change_with bcrypt name (ok pass) r.1
      | err no_rows ↦ (no_such_mailbox, r.1)
      | err e ↦ (failed e, r.1)
    ]

    by_row :
        (o : Option MailboxRow)
        → row_of name t.mailboxes ≡ o
        → ChangeEnds bcrypt name pass t
            (change_mailbox_password bcrypt (name ∷ []) (ok pass) (working t))
    by_row none p =
        unreplaced no_such_mailbox (λ q. cc) (ap on_lookup (mailbox-working name t none p))
    by_row (some r) p =
        subst (ChangeEnds bcrypt name pass t)
          (sym (ap on_lookup (mailbox-working name t (some r) p)))
          (change_with-ChangeEnds bcrypt name pass t r p)

-- With no password read, or not just one argument, a command changes nothing.
pub data Idle (t : Tables) (r : Answer × Db) : Type 0 where
  idle : (a : Answer) → r ≡ (a, working t) → Idle t r

pub add_mailbox_cmd-untyped :
    (bcrypt : Bcrypt) (name : Bytes) (e : Error) (t : Tables)
    → Idle t (add_mailbox_cmd bcrypt (name ∷ []) (err e) (working t))
unfolding add_mailbox_cmd add_with
add_mailbox_cmd-untyped bcrypt name e t = by_row (row_of name t.mailboxes) refl
  where
    on_lookup : Result ℕ × Db → Answer × Db
    on_lookup r = elim r.0 [
      | ok id ↦ (name_taken, r.1)
      | err no_rows ↦ (failed e, r.1)
      | err e' ↦ (failed e', r.1)
    ]

    by_row :
        (o : Option MailboxRow)
        → row_of name t.mailboxes ≡ o
        → Idle t (add_mailbox_cmd bcrypt (name ∷ []) (err e) (working t))
    by_row none p = idle (failed e) (ap on_lookup (mailbox-working name t none p))
    by_row (some r) p = idle name_taken (ap on_lookup (mailbox-working name t (some r) p))

pub change-untyped :
    (bcrypt : Bcrypt) (name : Bytes) (e : Error) (t : Tables)
    → Idle t (change_mailbox_password bcrypt (name ∷ []) (err e) (working t))
unfolding change_mailbox_password change_with
change-untyped bcrypt name e t = by_row (row_of name t.mailboxes) refl
  where
    on_lookup : Result ℕ × Db → Answer × Db
    on_lookup r = elim r.0 [
      | ok id ↦ (failed e, r.1)
      | err no_rows ↦ (no_such_mailbox, r.1)
      | err e' ↦ (failed e', r.1)
    ]

    by_row :
        (o : Option MailboxRow)
        → row_of name t.mailboxes ≡ o
        → Idle t (change_mailbox_password bcrypt (name ∷ []) (err e) (working t))
    by_row none p = idle no_such_mailbox (ap on_lookup (mailbox-working name t none p))
    by_row (some r) p = idle (failed e) (ap on_lookup (mailbox-working name t (some r) p))
