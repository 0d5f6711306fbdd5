-- ===== src/Pop3/Handlers/Removal.antt =====
-- What QUIT (internal/pop3/handler.go) removes from the mailbox.
use briefmail.Base.{
  ℕ, ◌≡◌, refl, ap, ◌∙◌, Bool, true, ◌&&◌, not, some, List, [], ◌∷◌, any, ◌==◌, arith,
}
use briefmail.Outcome.{close_session, ok, err}
use briefmail.Pop3.Handlers.{in_transaction, marked_mails, quit}
use briefmail.Pop3.Session.{Command, Session}
use briefmail.Storage.Db.{
  Db, transact, run_tx, finish_tx, delete_entries, delete_each, delete_mails,
}
use briefmail.Storage.Tables.{EntryRow, Tables, rows, delete_entry, delete_mail, select_orphans}

-- The mailbox has an entry for the mail.
abbrev pub has_entry : ℕ → ℕ → List EntryRow → Bool
has_entry box mail = any (λ (e : EntryRow). e.mailbox == box && e.mail == mail)

abbrev pub is_among : ℕ → List ℕ → Bool
is_among mail = any (λ m. mail == m)

has_entry-rows :
    (box mail b m : ℕ) (es : List EntryRow)
    → has_entry b m (rows (λ (r : EntryRow). not (r.mailbox == box && r.mail == mail)) es)
      ≡ (has_entry b m es && not (b == box && m == mail))
unfolding rows
has_entry-rows box mail b m [] = refl
has_entry-rows box mail b m (e ∷ es) = ground (arith, has_entry-rows box mail b m es)

delete_each-has_entry :
    (box b m : ℕ) (mails : List ℕ) (t : Tables)
    → has_entry b m (delete_each box mails t).entries
      ≡ (has_entry b m t.entries && not (b == box && is_among m mails))
unfolding delete_each delete_entry
delete_each-has_entry box b m [] t = ground arith
delete_each-has_entry box b m (mail ∷ mails) t = ground (
  arith,
  delete_each-has_entry box b m mails (delete_entry box mail t),
  has_entry-rows box mail b m t.entries,
)

delete_mails-entries : (ms : List ℕ) (t : Tables) → (delete_mails ms t).entries ≡ t.entries
unfolding delete_mails delete_mail
delete_mails-entries [] t = refl
delete_mails-entries (m ∷ ms) t = delete_mails-entries ms (delete_mail m t)

-- DeleteEntries, on a database that does not fail
deleted :
    (mails : List ℕ) (box : ℕ) (d : Db)
    → d.faults ≡ []
    → delete_entries mails box d
      ≡ (ok tt, record { tables = delete_each box mails d.tables; faults = [] })
unfolding delete_entries transact run_tx finish_tx
deleted mails box d w = rw w refl

-- QUIT in a transaction whose marks are numbers of entries ends the session, and a mailbox then has
-- an entry for a mail just if it had one before, unless it is the session's mailbox and the mail is
-- one of those that were marked; all this when the database does not fail.
pub quit-has_entry :
    (c : Command) (s : Session) (mails : List ℕ) (box mail : ℕ)
    → in_transaction s.state ≡ true
    → marked_mails s.mailbox.entries s.mailbox.marks ≡ some mails
    → s.store.db.faults ≡ []
    → ((quit c s).0 ≡ err close_session)
      × (has_entry box mail (quit c s).1.store.db.tables.entries ≡ (
          has_entry box mail s.store.db.tables.entries
          && not (box == s.mailbox.id && is_among mail mails)))
unfolding quit
quit-has_entry c s mails box mail inside marked w =
    rw (quit, inside, marked, deleted mails s.mailbox.id s.store.db w)
      (
        refl,
        ap (has_entry box mail) (
              delete_mails-entries
                (select_orphans (delete_each s.mailbox.id mails s.store.db.tables))
                (delete_each s.mailbox.id mails s.store.db.tables))
            ∙ delete_each-has_entry s.mailbox.id box mail mails s.store.db.tables,
      )
