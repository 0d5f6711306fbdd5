-- ===== src/Delivery/Mailman/Steps.antt =====
-- What each step of a delivery leaves in the store.
use briefmail.Base.{
  ℕ, ◌≡◌, refl, ap, sym, inl, inr, Bool-cases, Option, none, some, List, [], ◌∷◌, ◌++◌, map,
  append-nil, any, ◌==◌,
}
use briefmail.Outcome.{Result, ok, err, Exec}
use briefmail.Outcome.Ends.{Ends, ok-inj, ok-Ends, bind-Ends, map-Ends}
use briefmail.Delivery.Mailman.{Post, record_mail, add_to_mailboxes, add_outbound}
use briefmail.Model.Address.{Address, Envelope, to_string}
use briefmail.Storage.Blobs
use briefmail.Storage.Blobs.{Blobs}
use briefmail.Storage.Cleaner.{Store, on_db, on_blobs}
use briefmail.Storage.Db.{Db, exec, transact, insert_entries, add_mail, add_entries, add_to_queue}
use briefmail.Storage.Db.Transact.{as_entry, exec-Ends, transact-Ends, insert_entries-Ends}
use briefmail.Storage.Tables.{MailRow, QueueRow, Tables, insert_mail, insert_queue}

abbrev pub mail_row : ℕ → ℕ → ℕ → Address → ℕ → MailRow
mail_row id size offset from date = record {
  uuid = id;
  date = date;
  from = to_string from;
  size = size;
  offset = offset;
}

insert_mail-ok :
    (row : MailRow) (t t' : Tables)
    → insert_mail row t ≡ ok t'
    → t' ≡ record t { mails = t.mails ++ (row ∷ []) }
unfolding insert_mail
insert_mail-ok row t t' h = elim (Bool-cases (any (λ (r : MailRow). r.uuid == row.uuid) t.mails)) [
  | inl there ↦ cc (rw there at h)
  | inr free ↦ sym (ok-inj (rw free at h))
]

abbrev pub queue_row : ℕ → List Address → QueueRow
queue_row id to = record { mail = id; date = 0; attempts = 0; to = map to_string to }

insert_queue-ok :
    (id : ℕ) (to : List Address) (t t' : Tables)
    → insert_queue id (map to_string to) t ≡ ok t'
    → t' ≡ record t { queue = t.queue ++ (queue_row id to ∷ []) }
unfolding insert_queue
insert_queue-ok id to t t' h = elim (Bool-cases (any (λ (r : QueueRow). r.mail == id) t.queue)) [
  | inl there ↦ cc (rw there at h)
  | inr free ↦ sym (ok-inj (rw free at h))
]

-- Of the store, the blobs stay and the tables become as given.
pub record Tabled (s : Store) (t : Tables) (s' : Store) : Type 0 where
  pub tables : s'.db.tables ≡ t
  pub files : s'.blobs.files ≡ s.blobs.files

on_db-Tabled :
    {A : Type 0} (m : Exec Db A) (s : Store) (t : Tables)
    → Ends (λ _ d'. d'.tables ≡ t) (m s.db)
    → Ends (λ _ s'. Tabled s t s') (on_db m s)
on_db-Tabled m s t h = record { holds = λ a e. record { tables = h.holds a e; files = refl } }

insert-Tabled :
    (f : Tables → Result Tables) (s : Store) (t : Tables)
    → ((t' : Tables) → f s.db.tables ≡ ok t' → t' ≡ t)
    → Ends (λ _ s'. Tabled s t s') (on_db (transact (exec f)) s)
insert-Tabled f s t h =
    on_db-Tabled (transact (exec f)) s t
      (transact-Ends (exec f) s.db (λ _ t'. t' ≡ t) (exec-Ends f s.db.tables (λ t'. t' ≡ t) h))

undo-Ends :
    (Q : Unit {0} → Store → Type 0) (r : Result (Unit {0})) (s s' : Store)
    → Ends Q (r, s)
    → Ends Q (elim r [ ok _ ↦ (ok tt, s) | err e ↦ (err e, s') ])
undo-Ends Q (ok tt) s s' h = h
undo-Ends Q (err e) s s' h = record { holds = λ b p. cc }

-- the tables with the row of a mail
abbrev pub with_mail : ℕ → ℕ → ℕ → Address → ℕ → Tables → Tables
with_mail id size offset from date t = record t {
  mails = t.mails ++ (mail_row id size offset from date ∷ []);
}

add_mail-Ends :
    (id size offset : ℕ) (envelope : Envelope) (s : Store) (o : Option Address)
    → envelope.from ≡ o
    → Ends
        (λ _ s'.
          (from : Address) × (envelope.from ≡ some from)
          × Tabled s (with_mail id size offset from envelope.date s.db.tables) s')
        (on_db (add_mail id size offset envelope) s)
unfolding add_mail
add_mail-Ends id size offset envelope s none p = rw (add_mail, p) (record { holds = λ b q. cc })
add_mail-Ends id size offset envelope s (some from) p =
    let row = mail_row id size offset from envelope.date in
    let t = with_mail id size offset from envelope.date s.db.tables in
    rw (add_mail, p)
      (map-Ends (λ _ s'. Tabled s t s') _ (on_db (transact (exec (insert_mail row))) s)
        (λ _ k. (from, refl, k))
        (insert-Tabled (insert_mail row) s t (insert_mail-ok row s.db.tables)))

pub record_mail-Ends :
    (id size offset : ℕ) (envelope : Envelope) (s : Store)
    → Ends
        (λ _ s'.
          (from : Address) × (envelope.from ≡ some from)
          × Tabled s (with_mail id size offset from envelope.date s.db.tables) s')
        (record_mail id size offset envelope s)
unfolding record_mail
record_mail-Ends id size offset envelope s =
    let r = on_db (add_mail id size offset envelope) s in
    undo-Ends _ r.0 r.1 (on_blobs (Blobs.delete id) r.1).1
      (add_mail-Ends id size offset envelope s envelope.from refl)

pub add_to_mailboxes-Ends :
    (id : ℕ) (ms : List ℕ) (s : Store)
    → Ends
        (λ _ s'.
          Tabled s
            (record s.db.tables { entries = s.db.tables.entries ++ map (as_entry id) ms })
            s')
        (add_to_mailboxes id ms s)
unfolding add_to_mailboxes add_entries
add_to_mailboxes-Ends id [] s = ok-Ends _ tt s (record {
  tables =
      ap {B = Tables} (λ es. record s.db.tables { entries = es })
        (sym (append-nil s.db.tables.entries));
  files = refl;
})
add_to_mailboxes-Ends id (m ∷ ms) s =
    on_db-Tabled (add_entries id (m ∷ ms)) s
      (record s.db.tables { entries = s.db.tables.entries ++ map (as_entry id) (m ∷ ms) })
      (transact-Ends (insert_entries id (m ∷ ms)) s.db _
        (insert_entries-Ends id (m ∷ ms) s.db.tables))

-- the rows that a delivery adds to the queue
abbrev pub queue_rows : ℕ → List Address → List QueueRow
queue_rows id [] = []
queue_rows id (a ∷ as') = queue_row id (a ∷ as') ∷ []

pub add_outbound-Ends :
    (id : ℕ) (to : List Address) (p : Post)
    → Ends
        (λ _ p'.
          Tabled p.store
            (record p.store.db.tables { queue = p.store.db.tables.queue ++ queue_rows id to })
            p'.store)
        (add_outbound id to p)
unfolding add_outbound add_to_queue
add_outbound-Ends id [] p = ok-Ends _ tt p (record {
  tables =
      ap {B = Tables} (λ es. record p.store.db.tables { queue = es })
        (sym (append-nil p.store.db.tables.queue));
  files = refl;
})
add_outbound-Ends id (a ∷ as') p =
    let t : Tables = record p.store.db.tables {
      queue = p.store.db.tables.queue ++ queue_rows id (a ∷ as');
    } in
    let r = on_db (add_to_queue id (a ∷ as')) p.store in
    bind-Ends (λ _ p'. Tabled p.store t p'.store) (λ _ p'. Tabled p.store t p'.store) r.0 _
      (record p { store = r.1 })
      (record {
        holds = λ b e.
            (insert-Tabled (insert_queue id (map to_string (a ∷ as'))) p.store t
                (insert_queue-ok id (a ∷ as') p.store.db.tables)).holds
              b e;
      })
      (λ _ k. ok-Ends _ tt _ k)
