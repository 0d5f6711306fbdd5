-- ===== src/Storage/Db.antt =====
-- internal/storage/db.go. `return x, d.do(...)` returns the value that the closure has assigned.
pub mod Transact
pub mod Listing
use briefmail.Base.{
  ℕ, zero, suc, ◌+◌, Bool, true, false, ◌&&◌, Option, none, some, List, [], ◌∷◌, ◌++◌, map, Bytes,
  equal, ltb, ◌==◌, if◌then◌else◌,
}
use briefmail.Outcome.{
  Error, no_rows, panic, Result, ok, err, Exec, Action, pure, raise, of_option, ◌>>=◌, ◌>>◌, Faults,
  head_fault, tail_faults,
}
use briefmail.Outcome.Fallible
use briefmail.Model.Address.{
  Address, Normalizer, Envelope, to_string, marshal_text, Value, scan_address, unmarshal_text,
}
use briefmail.Storage.Tables.{
  MailboxRow, MailRow, EntryRow, QueueRow, Tables, rows, first_row, insert_mailbox, update_hash,
  insert_mail, insert_entry, delete_entry, select_entries, insert_queue, earliest,
  update_queue_rows, delete_queue, select_orphans, delete_mail,
}

-- golang.org/x/crypto/bcrypt
pub record Bcrypt : Type 0 where
  pub generate : Bytes → Result Bytes
  pub matches : Bytes → Bytes → Bool

-- `faults` has one place for each transaction: what its Begin, a statement or its Commit fails with.
pub record Db : Type 0 where
  pub tables : Tables
  pub faults : Faults

unfoldable pub finish_tx : {A : Type 0} → Result A × Tables → Db → Result A × Db
finish_tx (ok a, t) d = (ok a, record d { tables = t })
finish_tx (err e, t) d = (err e, d)

unfoldable pub run_tx : {A : Type 0} → Option Error → Exec Tables A → Exec Db A
unfolding finish_tx
run_tx (some e) fn d = (err e, d)
run_tx none fn d = finish_tx (fn d.tables) d

-- (*DB).do: an error rolls the transaction back
unfoldable pub transact : {A : Type 0} → Exec Tables A → Exec Db A
unfolding run_tx
transact fn d = run_tx (head_fault d.faults) fn (record d { faults = tail_faults d.faults })

-- a statement that changes the tables or fails
abbrev pub exec : (Tables → Result Tables) → Action Tables
exec f t = elim (f t) [ ok t' ↦ (ok tt, t') | err e ↦ (err e, t) ]

-- a query
abbrev pub select : {A : Type 0} → (Tables → A) → Exec Tables A
select f t = (ok (f t), t)

abbrev pub by_name : Bytes → Tables → Option MailboxRow
by_name name t = first_row (rows (λ (r : MailboxRow). equal r.name name) t.mailboxes)

abbrev pub by_uuid : ℕ → Tables → Option MailRow
by_uuid uuid t = first_row (rows (λ (r : MailRow). r.uuid == uuid) t.mails)

-- (*DB).Mailbox
unfoldable pub mailbox : Bytes → Exec Db ℕ
unfolding transact rows
mailbox name = transact (do row ← select (by_name name); r ← of_option no_rows row; pure r.id)

-- (*DB).AddMailbox
unfoldable pub add_mailbox : Bcrypt → Bytes → Bytes → Exec Db ℕ
unfolding transact insert_mailbox
add_mailbox bcrypt name pass d = elim (bcrypt.generate pass) [
  | err e ↦ (err e, d)
  | ok hash ↦ transact (do exec (insert_mailbox name hash); select (λ t. t.last_id)) d
]

-- the update of SetPassword
abbrev pub set_hash : Bytes → Bytes → Tables → Result Tables
set_hash name hash t =
    let (ms, affected) = update_hash name hash t.mailboxes in
    if ltb affected 1 then err no_rows else ok (record t { mailboxes = ms })

-- (*DB).SetPassword
unfoldable pub set_password : Bcrypt → Bytes → Bytes → Action Db
unfolding transact update_hash
set_password bcrypt name pass d = elim (bcrypt.generate pass) [
  | err e ↦ (err e, d)
  | ok hash ↦ transact (exec (set_hash name hash)) d
]

-- What Authenticate returns: `id, ok`. With no such mailbox the id is left 0.
abbrev checked : Bcrypt → Bytes → Option MailboxRow → ℕ × Bool
checked bcrypt pass none = (0, false)
checked bcrypt pass (some r) = (r.id, bcrypt.matches r.hash pass)

-- (*DB).Authenticate
unfoldable pub authenticate : Bcrypt → Bytes → Bytes → Exec Db (ℕ × Bool)
unfolding transact rows
authenticate bcrypt name pass = transact (select (λ t. checked bcrypt pass (by_name name t)))

pub record Mail : Type 0 where
  pub id : ℕ
  pub date : ℕ
  pub from : Address
  pub size : ℕ
  pub offset : ℕ

-- what the driver hands over for a column of text
abbrev pub Driver : Type 0
Driver = Bytes → Value

abbrev scan_mail : Driver → Normalizer → MailRow → Result Mail
scan_mail driver n r = Fallible.◌>>=◌ (scan_address n (driver r.from)) (λ from.
    ok (record { id = r.uuid; date = r.date; from = from; size = r.size; offset = r.offset }))

-- (*DB).Mail
unfoldable pub mail : Driver → Normalizer → ℕ → Exec Db Mail
unfolding transact rows scan_address
mail driver n id =
    transact
      (do row ← select (by_uuid id); r ← of_option no_rows row; λ t. (scan_mail driver n r, t))

-- (*DB).AddMail; `envelope.From.String()` needs a From that is not nil
unfoldable pub add_mail : ℕ → ℕ → ℕ → Envelope → Action Db
unfolding transact insert_mail
add_mail id size offset envelope d = elim envelope.from [
  | none ↦ (err panic, d)
  | some a ↦
      transact
        (exec (
          insert_mail (record {
            uuid = id;
            date = envelope.date;
            from = to_string a;
            size = size;
            offset = offset;
          })))
        d
]

pub record Entry : Type 0 where
  pub mail_id : ℕ
  pub size : ℕ

abbrev pub total_size : List Entry → ℕ
total_size [] = 0
total_size (e ∷ es) = e.size + total_size es

abbrev pub as_entries : List MailRow → List Entry
as_entries = map λ (r : MailRow). record { mail_id = r.uuid; size = r.size }

-- (*DB).Entries: the list, and the total of the sizes
unfoldable pub entries : ℕ → Exec Db (List Entry × ℕ)
unfolding transact select_entries
entries box =
    transact (do ms ← select (select_entries box); pure (as_entries ms, total_size (as_entries ms)))

unfoldable pub insert_entries : ℕ → List ℕ → Action Tables
unfolding insert_entry
insert_entries uuid [] = pure tt
insert_entries uuid (m ∷ ms) = do exec (insert_entry m uuid); insert_entries uuid ms

-- (*DB).AddEntries
unfoldable pub add_entries : ℕ → List ℕ → Action Db
unfolding transact insert_entries
add_entries uuid boxes = transact (insert_entries uuid boxes)

unfoldable pub delete_each : ℕ → List ℕ → Tables → Tables
unfolding delete_entry
delete_each box [] t = t
delete_each box (m ∷ ms) t = delete_each box ms (delete_entry box m t)

-- (*DB).DeleteEntries
unfoldable pub delete_entries : List ℕ → ℕ → Action Db
unfolding transact delete_each
delete_entries uuids box = transact (exec (λ t. ok (delete_each box uuids t)))

pub record QueueElement : Type 0 where
  pub mail_id : ℕ
  pub date : ℕ
  pub attempts : ℕ
  pub to : List Address

-- json.Unmarshal of the list of addresses
unfoldable pub unmarshal_to : Normalizer → List Bytes → Result (List Address)
unmarshal_to n [] = ok []
unmarshal_to n (v ∷ vs) =
    Fallible.◌>>=◌ (unmarshal_text n v)
      (λ a. Fallible.◌>>=◌ (unmarshal_to n vs) (λ rest. ok (a ∷ rest)))

abbrev pub scan_queue : Normalizer → QueueRow → Result QueueElement
scan_queue n r =
    Fallible.◌>>=◌ (unmarshal_to n r.to)
      (λ to. ok (record { mail_id = r.mail; date = r.date; attempts = r.attempts; to = to }))

-- (*DB).PeekQueue
unfoldable pub peek_queue : Normalizer → Exec Db QueueElement
unfolding transact earliest unmarshal_to
peek_queue n =
    transact
      (do row ← select (λ t. earliest t.queue); r ← of_option no_rows row; λ t. (scan_queue n r, t))

-- (*DB).AddToQueue
unfoldable pub add_to_queue : ℕ → List Address → Action Db
unfolding transact insert_queue
add_to_queue uuid to = transact (exec (insert_queue uuid (map marshal_text to)))

-- (*DB).UpdateQueue
unfoldable pub update_queue : ℕ → List Address → ℕ → Action Db
unfolding transact update_queue_rows
update_queue uuid to date = transact (
    exec (λ t. ok (record t { queue = update_queue_rows uuid date (map marshal_text to) t.queue })))

-- (*DB).DeleteFromQueue
unfoldable pub delete_from_queue : ℕ → Action Db
unfolding transact delete_queue
delete_from_queue uuid = transact (exec (λ t. ok (delete_queue uuid t)))

unfoldable pub delete_mails : List ℕ → Tables → Tables
unfolding delete_mail
delete_mails [] t = t
delete_mails (m ∷ ms) t = delete_mails ms (delete_mail m t)

-- (*DB).DeleteOrphans
unfoldable pub delete_orphans : Exec Db (List ℕ)
unfolding transact select_orphans delete_mails
delete_orphans = transact (λ t. let o = select_orphans t in (ok o, delete_mails o t))
