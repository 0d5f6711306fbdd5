-- ===== src/Storage/Tables.antt =====
-- The tables of internal/storage/db.go, and what its SQL statements do to them. Rows that a query
-- may return in any order come in the order of the table. SQLite does not enforce the foreign
-- keys, since the program does not turn that on.
use briefmail.Base.{
  ℕ, suc, Bool, ◌&&◌, ◌||◌, not, Option, none, some, List, [], ◌∷◌, ◌++◌, map, Bytes, equal, leb,
  ◌==◌, if◌then◌else◌, take, any,
}
use briefmail.Outcome.{constraint, Result, ok, err}

pub record MailboxRow : Type 0 where
  pub id : ℕ
  pub name : Bytes
  pub hash : Bytes

pub record MailRow : Type 0 where
  pub uuid : ℕ
  pub date : ℕ
  pub from : Bytes
  pub size : ℕ
  pub offset : ℕ

pub record EntryRow : Type 0 where
  pub mailbox : ℕ
  pub mail : ℕ

-- "to" is the JSON list of the addresses' texts
pub record QueueRow : Type 0 where
  pub mail : ℕ
  pub date : ℕ
  pub attempts : ℕ
  pub to : List Bytes

pub record Tables : Type 0 where
  pub mailboxes : List MailboxRow
  -- the autoincrement of "mailboxes"
  pub last_id : ℕ
  pub mails : List MailRow
  pub entries : List EntryRow
  pub queue : List QueueRow

module _ {ℓ} {A : Type ℓ} where
  -- the rows for which a test holds
  unfoldable pub rows : (A → Bool) → List A → List A
  rows p [] = []
  rows p (x ∷ xs) = let rest = rows p xs in if p x then x ∷ rest else rest

  abbrev pub first_row : List A → Option A
  first_row [] = none
  first_row (x ∷ xs) = some x

-- insert into "mailboxes"
unfoldable pub insert_mailbox : Bytes → Bytes → Tables → Result Tables
insert_mailbox name hash t =
    if any (λ (r : MailboxRow). equal r.name name) t.mailboxes
    then err constraint
    else ok (record t {
      mailboxes = t.mailboxes ++ (record { id = suc t.last_id; name = name; hash = hash } ∷ []);
      last_id = suc t.last_id;
    })

-- update "mailboxes" set "hash" where "name": the rows, and how many were affected
unfoldable pub update_hash : Bytes → Bytes → List MailboxRow → List MailboxRow × ℕ
update_hash name hash [] = ([], 0)
update_hash name hash (r ∷ rs) =
    let (rs', n) = update_hash name hash rs in
    if equal r.name name then (record r { hash = hash } ∷ rs', suc n) else (r ∷ rs', n)

-- insert into "mails"
unfoldable pub insert_mail : MailRow → Tables → Result Tables
insert_mail row t =
    if any (λ (r : MailRow). r.uuid == row.uuid) t.mails
    then err constraint
    else ok (record t { mails = t.mails ++ (row ∷ []) })

-- insert into "entries"
unfoldable pub insert_entry : ℕ → ℕ → Tables → Result Tables
insert_entry mailbox mail t =
    if any (λ (r : EntryRow). r.mailbox == mailbox && r.mail == mail) t.entries
    then err constraint
    else ok (record t { entries = t.entries ++ (record { mailbox = mailbox; mail = mail } ∷ []) })

-- delete from "entries" where "mailbox" and "mail"
unfoldable pub delete_entry : ℕ → ℕ → Tables → Tables
unfolding rows
delete_entry mailbox mail t = record t {
  entries = rows (λ (r : EntryRow). not (r.mailbox == mailbox && r.mail == mail)) t.entries;
}

-- a sorted insert for `order by "date" desc`
unfoldable pub insert_by_date : MailRow → List MailRow → List MailRow
insert_by_date m [] = m ∷ []
insert_by_date m (x ∷ xs) = if leb x.date m.date then m ∷ x ∷ xs else x ∷ insert_by_date m xs

unfoldable pub newest_first : List MailRow → List MailRow
unfolding insert_by_date
newest_first [] = []
newest_first (m ∷ ms) = insert_by_date m (newest_first ms)

-- "mails" joined with "entries" of a mailbox, newest first, at most 1000
unfoldable pub select_entries : ℕ → Tables → List MailRow
unfolding rows newest_first
select_entries mailbox t = take 1000 (
    newest_first (
      rows
        (λ (m : MailRow).
          any (λ (e : EntryRow). e.mailbox == mailbox && e.mail == m.uuid) t.entries)
        t.mails))

-- insert into "queue" with date 0 and no attempts
unfoldable pub insert_queue : ℕ → List Bytes → Tables → Result Tables
insert_queue mail to t =
    if any (λ (r : QueueRow). r.mail == mail) t.queue
    then err constraint
    else ok (record t {
      queue = t.queue ++ (record { mail = mail; date = 0; attempts = 0; to = to } ∷ []);
    })

-- the first row by `order by "date" asc`
unfoldable pub earliest : List QueueRow → Option QueueRow
earliest [] = none
earliest (r ∷ rs) = elim (earliest rs) [
  | none ↦ some r
  | some q ↦ if leb r.date q.date then some r else some q
]

-- update "queue" where "mail"
unfoldable pub update_queue_rows : ℕ → ℕ → List Bytes → List QueueRow → List QueueRow
update_queue_rows mail date to = map λ (r : QueueRow).
    if r.mail == mail then record r { date = date; attempts = suc r.attempts; to = to } else r

-- delete from "queue" where "mail"
unfoldable pub delete_queue : ℕ → Tables → Tables
unfolding rows
delete_queue mail t = record t { queue = rows (λ (r : QueueRow). not (r.mail == mail)) t.queue }

-- The mail has an entry in some mailbox, or is queued.
abbrev pub is_referenced : Tables → ℕ → Bool
is_referenced t uuid =
    any (λ (e : EntryRow). e.mail == uuid) t.entries
    || any (λ (q : QueueRow). q.mail == uuid) t.queue

-- the "uuid"s with no entry and no place in the queue
unfoldable pub select_orphans : Tables → List ℕ
unfolding rows
select_orphans t =
    map (λ (m : MailRow). m.uuid) (rows (λ (m : MailRow). not (is_referenced t m.uuid)) t.mails)

-- delete from "mails" where "uuid"
unfoldable pub delete_mail : ℕ → Tables → Tables
unfolding rows
delete_mail uuid t = record t { mails = rows (λ (m : MailRow). not (m.uuid == uuid)) t.mails }
