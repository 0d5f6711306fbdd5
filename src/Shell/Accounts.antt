-- ===== src/Shell/Accounts.antt =====
-- The accounts that the commands of cmd/briefmail/shell.go leave.
use briefmail.Base.{
  ℕ, suc, ◌≡◌, refl, sym, ap, ◌∙◌, true, false, some, List, [], ◌∷◌, All, Bytes, any, equal,
  equal_refl,
}
use briefmail.Outcome.{Result, ok, err}
use briefmail.Shell.{Answer, added, changed, add_mailbox_cmd, change_mailbox_password}
use briefmail.Storage.Db
use briefmail.Storage.Db.{
  Db, Bcrypt, add_mailbox, set_password, authenticate, exec, set_hash, transact, run_tx, finish_tx,
}
use briefmail.Storage.Tables.{MailboxRow, Tables, rows, update_hash}
use briefmail.Shell.Rows.{
  row_of, checks, row_of-append, row_of-append_other, row_of-update, row_of-update_other,
}
use briefmail.Shell.Calls.{working, authenticate-working, mailbox-working, with_mailbox}
use briefmail.Shell.Ends.{
  AddEnds, done, undone, ChangeEnds, replaced, unreplaced, add_mailbox_cmd-AddEnds,
  change-ChangeEnds, Idle, idle, add_mailbox_cmd-untyped, change-untyped,
}

-- bcrypt accepts the password of which it made the hash
pub record IsBcrypt (bcrypt : Bcrypt) : Type 0 where
  pub accepts :
      (pass hash : Bytes) → bcrypt.generate pass ≡ ok hash → bcrypt.matches hash pass ≡ true

-- After "mailbox add" has said that it added a mailbox, Authenticate accepts the password that was
-- typed for the name, with the id that was printed, when bcrypt accepts the passwords that it has
-- hashed and the database does not fail.
pub add_mailbox_cmd-authenticate :
    (bcrypt : Bcrypt) (name pass : Bytes) (t : Tables) (id : ℕ)
    → IsBcrypt bcrypt
    → (add_mailbox_cmd bcrypt (name ∷ []) (ok pass) (working t)).0 ≡ added id
    → (authenticate bcrypt name pass (add_mailbox_cmd bcrypt (name ∷ []) (ok pass) (working t)).1).0
      ≡ ok (id, true)
add_mailbox_cmd-authenticate bcrypt name pass t id law said =
    by_end (add_mailbox_cmd-AddEnds bcrypt name pass t)
  where
    the_id : {a : ℕ} → added a ≡ added id → a ≡ id
    the_id q = cc

    new_row :
        (hash : Bytes)
        → any (λ (x : MailboxRow). equal x.name name) t.mailboxes ≡ false
        → row_of name (with_mailbox name hash t).mailboxes
          ≡ some (record { id = suc t.last_id; name = name; hash = hash })
    new_row hash free =
        unfold rows in
        row_of-append name t.mailboxes (record { id = suc t.last_id; name = name; hash = hash })
          free
        ∙ rw (equal_refl name) refl

    by_end :
        AddEnds bcrypt name pass t (add_mailbox_cmd bcrypt (name ∷ []) (ok pass) (working t))
        → (authenticate bcrypt name pass
            (add_mailbox_cmd bcrypt (name ∷ []) (ok pass) (working t)).1).0
          ≡ ok (id, true)
    by_end (done hash g free p) = rw p (
        authenticate-working bcrypt name pass (with_mailbox name hash t)
        ∙ rw
            (
              new_row hash free,
              law.accepts pass hash g,
              the_id (ap (λ (r : Answer × Db). r.0) (sym p) ∙ said),
            )
            refl)
    by_end (undone a no_id p) = absurd (no_id id (ap (λ (r : Answer × Db). r.0) (sym p) ∙ said))

-- After "mailbox passwd" has said that it changed the password, Authenticate accepts the new one for
-- the id that Mailbox finds, under the same conditions.
pub change_mailbox_password-authenticate :
    (bcrypt : Bcrypt) (name pass : Bytes) (t : Tables)
    → IsBcrypt bcrypt
    → (change_mailbox_password bcrypt (name ∷ []) (ok pass) (working t)).0 ≡ changed name
    → (id : ℕ) × ((Db.mailbox name (working t)).0 ≡ ok id)
      × ((authenticate bcrypt name pass
            (change_mailbox_password bcrypt (name ∷ []) (ok pass) (working t)).1).0
          ≡ ok (id, true))
change_mailbox_password-authenticate bcrypt name pass t law said =
    by_end (change-ChangeEnds bcrypt name pass t)
  where
    by_end :
        ChangeEnds bcrypt name pass t
          (change_mailbox_password bcrypt (name ∷ []) (ok pass) (working t))
        → (id : ℕ) × ((Db.mailbox name (working t)).0 ≡ ok id)
          × ((authenticate bcrypt name pass
                (change_mailbox_password bcrypt (name ∷ []) (ok pass) (working t)).1).0
              ≡ ok (id, true))
    by_end (replaced row hash found g p) = (
      row.id,
      ap (λ (r : Result ℕ × Db). r.0) (mailbox-working name t (some row) found),
      rw p (
          authenticate-working bcrypt name pass
            (record t { mailboxes = (update_hash name hash t.mailboxes).0 })
          ∙ rw (row_of-update name hash t.mailboxes, found, law.accepts pass hash g) refl),
    )
    by_end (unreplaced a not_changed p) =
        absurd (not_changed (ap (λ (r : Answer × Db). r.0) (sym p) ∙ said))

named-others :
    (bcrypt : Bcrypt) (name pass other secret : Bytes) (t : Tables)
    → equal name other ≡ false
    → ((authenticate bcrypt other secret
          (add_mailbox_cmd bcrypt (name ∷ []) (ok pass) (working t)).1).0
        ≡ (authenticate bcrypt other secret (working t)).0)
      × ((authenticate bcrypt other secret
            (change_mailbox_password bcrypt (name ∷ []) (ok pass) (working t)).1).0
          ≡ (authenticate bcrypt other secret (working t)).0)
named-others bcrypt name pass other secret t apart = (
  after_add_cmd (add_mailbox_cmd-AddEnds bcrypt name pass t),
  after_passwd (change-ChangeEnds bcrypt name pass t),
)
  where
    same_row :
        (u : Tables)
        → row_of other u.mailboxes ≡ row_of other t.mailboxes
        → (authenticate bcrypt other secret (working u)).0
          ≡ (authenticate bcrypt other secret (working t)).0
    same_row u p =
        authenticate-working bcrypt other secret u
        ∙ (ap (λ o. ok (checks bcrypt secret o)) p
            ∙ sym (authenticate-working bcrypt other secret t))

    after_add_cmd :
        AddEnds bcrypt name pass t (add_mailbox_cmd bcrypt (name ∷ []) (ok pass) (working t))
        → (authenticate bcrypt other secret
            (add_mailbox_cmd bcrypt (name ∷ []) (ok pass) (working t)).1).0
          ≡ (authenticate bcrypt other secret (working t)).0
    after_add_cmd (done hash g free p) = rw p (
        same_row (with_mailbox name hash t) (
          row_of-append_other other t.mailboxes
            (record { id = suc t.last_id; name = name; hash = hash }) apart))
    after_add_cmd (undone a no_id p) = rw p refl

    after_passwd :
        ChangeEnds bcrypt name pass t
          (change_mailbox_password bcrypt (name ∷ []) (ok pass) (working t))
        → (authenticate bcrypt other secret
            (change_mailbox_password bcrypt (name ∷ []) (ok pass) (working t)).1).0
          ≡ (authenticate bcrypt other secret (working t)).0
    after_passwd (replaced row hash found g p) = rw p (
        same_row (record t { mailboxes = (update_hash name hash t.mailboxes).0 })
          (row_of-update_other name other hash t.mailboxes apart))
    after_passwd (unreplaced a not_changed p) = rw p refl

-- Neither command, with whatever arguments and whatever is read as the password, changes what
-- Authenticate says of a name that is not among the arguments, when the database does not fail.
pub commands-others :
    (bcrypt : Bcrypt) (as' : List Bytes) (typed : Result Bytes) (other secret : Bytes) (t : Tables)
    → All (λ name. equal name other ≡ false) as'
    → ((authenticate bcrypt other secret (add_mailbox_cmd bcrypt as' typed (working t)).1).0
        ≡ (authenticate bcrypt other secret (working t)).0)
      × ((authenticate bcrypt other secret
            (change_mailbox_password bcrypt as' typed (working t)).1).0
          ≡ (authenticate bcrypt other secret (working t)).0)
unfolding add_mailbox_cmd change_mailbox_password
commands-others bcrypt [] typed other secret t apart = (refl, refl)
commands-others bcrypt (a ∷ b ∷ as') typed other secret t apart = (refl, refl)
commands-others bcrypt (name ∷ []) (ok pass) other secret t apart =
    named-others bcrypt name pass other secret t apart.0
commands-others bcrypt (name ∷ []) (err e) other secret t apart = (
  after_nothing (add_mailbox_cmd-untyped bcrypt name e t),
  after_nothing (change-untyped bcrypt name e t),
)
  where
    after_nothing :
        {r : Answer × Db}
        → Idle t r
        → (authenticate bcrypt other secret r.1).0
          ≡ (authenticate bcrypt other secret (working t)).0
    after_nothing (idle a p) = ap (λ (x : Answer × Db). (authenticate bcrypt other secret x.1).0) p
