-- ===== src/Shell.antt =====
-- cmd/briefmail/shell.go: the commands "mailbox add" and "mailbox passwd"
pub mod Rows
pub mod Calls
pub mod Ends
pub mod Accounts
use briefmail.Base.{ℕ, Option, none, some, List, [], ◌∷◌, Bytes}
use briefmail.Outcome.{Error, no_rows, Result, ok, err}
use briefmail.Storage.Db
use briefmail.Storage.Db.{Db, Bcrypt, add_mailbox, set_password}

-- what a command ends with: what it prints, or the error that it returns
pub data Answer : Type 0 where
  added : ℕ → Answer
  changed : Bytes → Answer
  usage name_taken no_such_mailbox empty_password : Answer
  failed : Error → Answer
  could_not_add could_not_update : Error → Answer

-- the end of addMailbox, with the password that ReadPasswordErr returns
unfoldable pub add_with : Bcrypt → Bytes → Result Bytes → Db → Answer × Db
unfolding add_mailbox
add_with bcrypt name (err e) d = (failed e, d)
add_with bcrypt name (ok []) d = (empty_password, d)
add_with bcrypt name (ok (c ∷ pass)) d =
    let r = add_mailbox bcrypt name (c ∷ pass) d in
    elim r.0 [ err e ↦ (could_not_add e, r.1) | ok id ↦ (added id, r.1) ]

-- (*shellCommand).addMailbox, on its arguments
unfoldable pub add_mailbox_cmd : Bcrypt → List Bytes → Result Bytes → Db → Answer × Db
unfolding Db.mailbox add_with
add_mailbox_cmd bcrypt (name ∷ []) typed d =
    let r = Db.mailbox name d in
    elim r.0 [
      | ok id ↦ (name_taken, r.1)
      | err no_rows ↦ add_with bcrypt name typed r.1
      | err e ↦ (failed e, r.1)
    ]
add_mailbox_cmd bcrypt _ typed d = (usage, d)

-- the end of changeMailboxPassword
unfoldable pub change_with : Bcrypt → Bytes → Result Bytes → Db → Answer × Db
unfolding set_password
change_with bcrypt name (err e) d = (failed e, d)
change_with bcrypt name (ok []) d = (empty_password, d)
change_with bcrypt name (ok (c ∷ pass)) d =
    let r = set_password bcrypt name (c ∷ pass) d in
    elim r.0 [ err e ↦ (could_not_update e, r.1) | ok _ ↦ (changed name, r.1) ]

-- (*shellCommand).changeMailboxPassword
unfoldable pub change_mailbox_password : Bcrypt → List Bytes → Result Bytes → Db → Answer × Db
unfolding Db.mailbox change_with
change_mailbox_password bcrypt (name ∷ []) typed d =
    let r = Db.mailbox name d in
    elim r.0 [
      | ok id ↦ change_with bcrypt name typed r.1
      | err no_rows ↦ (no_such_mailbox, r.1)
      | err e ↦ (failed e, r.1)
    ]
change_mailbox_password bcrypt _ typed d = (usage, d)
