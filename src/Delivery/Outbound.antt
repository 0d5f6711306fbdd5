-- ===== src/Delivery/Outbound.antt =====
-- From Deliver of internal/delivery/mailman.go to next and do of queue.go: what an attempt at outbound
-- delivery starts from.
use briefmail.Base.{
  ℕ, ◌≡◌, ◌≢◌, refl, sym, ap, ◌∙◌, Bool, true, false, inl, inr, Bool-cases, Option, some, List, [],
  ◌∷◌, ◌++◌, map, All, Bytes, codes, any, ◌==◌, ltb, length, drop-append_self, arith,
}
use briefmail.Outcome.{ok}
use briefmail.Addressbook.{Entry}
use briefmail.Delivery.Mailman.{Post, Routes, deliver, route, shown}
use briefmail.Delivery.Mailman.Laws.{Delivered, returned, deliver-Delivered}
use briefmail.Delivery.Mailman.Steps.{mail_row, queue_row, queue_rows}
use briefmail.Delivery.Queue.{next}
use briefmail.Delivery.Retrieval.{calm, read_all-ok}
use briefmail.Model.Address.{Address, Normalizer, Envelope, to_string, parse_address, string_value}
use briefmail.Model.Body.{header_text, prepend}
use briefmail.Storage.Blobs
use briefmail.Storage.Blobs.{Blobs}
use briefmail.Storage.Cleaner.{Store}
use briefmail.Storage.Db
use briefmail.Storage.Db.{
  Driver, Db, Mail, QueueElement, by_uuid, unmarshal_to, peek_queue, transact, run_tx, finish_tx,
}
use briefmail.Storage.Tables.{MailRow, Tables, rows, first_row, earliest}
use briefmail.Stream.{Stream, of_bytes}

-- An address that the database gives back as it was: so are those from ParseAddress.
abbrev pub IsStable : Normalizer → Address → Type 0
IsStable n a = parse_address n (to_string a) ≡ ok a

-- At the time `now` the first element of the queue is due, and is a mail from `from` to all of `to`
-- with no attempt behind it; and what do reads of its file are the bytes.
pub record Awaiting (driver : Driver) (n : Normalizer) (now : ℕ) (from : Address)
    (to : List Address) (bytes : Bytes) (s : Store) : Type 0 where
  pub elem : QueueElement
  pub due : (next n now s).0 ≡ ok (some elem, 0)
  pub everyone : elem.to ≡ to
  pub first : elem.attempts ≡ 0
  pub mail : Mail
  pub recorded : (Db.mail driver n elem.mail_id s.db).0 ≡ ok mail
  pub sender : mail.from ≡ from
  pub whole : (Blobs.read_offset mail.id mail.offset s.blobs).0 ≡ ok (of_bytes bytes)

unmarshal-map :
    (n : Normalizer) (as' : List Address)
    → All (IsStable n) as'
    → unmarshal_to n (map to_string as') ≡ ok as'
unfolding unmarshal_to
unmarshal-map n [] h = refl
unmarshal-map n (a ∷ as') h = rw (h.0, unmarshal-map n as' h.1) refl

self : (n : ℕ) → (n == n) ≡ true
self n = ground arith

-- the last row, where no other has its uuid
rows-last :
    (p : MailRow → Bool) (ms : List MailRow) (m : MailRow)
    → any p ms ≡ false
    → p m ≡ true
    → first_row (rows p (ms ++ (m ∷ []))) ≡ some m
unfolding rows
rows-last p [] m h k = rw k refl
rows-last p (x ∷ ms) m h k = ground (arith, rows-last p ms m)

abbrev first_attempt : ℕ → List Address → QueueElement
first_attempt id to = record { mail_id = id; date = 0; attempts = 0; to = to }

next-single :
    (n : Normalizer) (now id : ℕ) (to : List Address) (t : Tables) (b : Blobs)
    → t.queue ≡ queue_row id to ∷ []
    → All (IsStable n) to
    → (next n now (record { db = record { tables = t; faults = [] }; blobs = b })).0
      ≡ ok (some (first_attempt id to), 0)
unfolding next transact run_tx finish_tx earliest
next-single n now id to t b q h = rw (q, next, earliest, unmarshal-map n to h, never) refl
  where
    never : ltb now 0 ≡ false
    never = ground arith

mail-last :
    (driver : Driver) (n : Normalizer) (t : Tables) (ms : List MailRow) (m : MailRow)
    (from : Address)
    → t.mails ≡ ms ++ (m ∷ [])
    → any (λ (r : MailRow). r.uuid == m.uuid) ms ≡ false
    → m.from ≡ to_string from
    → driver (to_string from) ≡ string_value (to_string from)
    → IsStable n from
    → (Db.mail driver n m.uuid (record { tables = t; faults = [] })).0
      ≡ ok (record { id = m.uuid; date = m.date; from = from; size = m.size; offset = m.offset })
unfolding Db.mail transact run_tx finish_tx
mail-last driver n t ms m from at fresh sender text stable =
    rw
      (
        at,
        rows-last (λ (r : MailRow). r.uuid == m.uuid) ms m fresh (self m.uuid),
        sender,
        text,
        stable,
      )
      refl

read-behind :
    (id : ℕ) (b : Blobs) (header bytes : Bytes)
    → b.files id ≡ some (header ++ bytes)
    → (Blobs.read_offset id (length header) (record b { faults = [] })).0 ≡ ok (of_bytes bytes)
unfolding Blobs.read_offset
read-behind id b header bytes h = elim (Bool-cases (ltb 0 (length header))) [
  | inl some_header ↦ rw (h, some_header, drop-append_self header bytes) refl
  | inr no_header ↦ rw (h, no_header, drop-append_self header bytes) refl
]

module _ (lookup : Address → Option Entry) (envelope : Envelope) (mail : Stream) (n : Normalizer)
    (now : ℕ) (p : Post) (routes : Routes) (from : Address)
    (accepted : (deliver lookup envelope mail p).0 ≡ ok tt)
    (routed : route lookup envelope.to ≡ ok routes) (some_remote : routes.queue ≢ [])
    (empty : p.store.db.tables.queue ≡ [])
    (fresh : any
        (λ (r : MailRow). r.uuid == p.store.blobs.ids p.store.blobs.drawn)
        p.store.db.tables.mails
      ≡ false)
    (from_is : envelope.from ≡ some from) (stable : IsStable n from)
    (all_stable : All (IsStable n) routes.queue) where
  d : Delivered lookup envelope mail p.store (deliver lookup envelope mail p).1.store
  d = deliver-Delivered lookup envelope mail p accepted

  s' : Store
  s' = (deliver lookup envelope mail p).1.store

  routes_are : d.routes ≡ routes
  routes_are = the_ok (sym d.routed ∙ routed)
    where
      the_ok : {x y : Routes} → ok x ≡ ok y → x ≡ y
      the_ok q = cc

  from_same : d.from ≡ from
  from_same = the_some (sym d.from_is ∙ from_is)
    where
      the_some : {x y : Address} → some x ≡ some y → x ≡ y
      the_some q = cc

  queue_is : s'.db.tables.queue ≡ queue_row d.id routes.queue ∷ []
  unfolding s'
  queue_is =
      ap (λ (t : Tables). t.queue) d.tables
      ∙ (ap (λ q. q ++ queue_rows d.id d.routes.queue) empty
          ∙ (ap (λ (r : Routes). queue_rows d.id r.queue) routes_are
              ∙ one routes.queue some_remote))
    where
      one : (to : List Address) → to ≢ [] → queue_rows d.id to ≡ queue_row d.id to ∷ []
      one [] h = absurd (h refl)
      one (a ∷ as') h = refl

  abbrev return_path : Bytes
  return_path = header_text (codes "Return-Path") (codes "<" ++ (shown envelope.from ++ codes ">"))

  bytes_are : s'.blobs.files d.id ≡ some (return_path ++ mail.bytes)
  unfolding s' prepend
  bytes_are = d.blob.stored ∙ ap some (read_all-ok _ d.blob.bytes d.blob.all_read)

  fresh_id : any (λ (r : MailRow). r.uuid == d.id) p.store.db.tables.mails ≡ false
  fresh_id =
      ap (λ id. any (λ (r : MailRow). r.uuid == id) p.store.db.tables.mails) d.blob.fresh ∙ fresh

  -- A mail that Deliver has accepted for recipients elsewhere, with the queue empty before, is due at
  -- once: the worker's next finds an element with no attempt behind it that names just the recipients
  -- of the queue, and for its id the database gives the sender, and the file system all bytes of the
  -- mail without the Return-Path. The driver hands the sender's text over as a string, the id that
  -- was drawn is new, the addresses are read back by ParseAddress as they are, and no call fails
  -- behind Deliver.
  pub deliver-Awaiting :
      (driver : Driver)
      → driver (to_string from) ≡ string_value (to_string from)
      → Awaiting driver n now from routes.queue mail.bytes
          (calm (deliver lookup envelope mail p).1.store)
  unfolding s' prepend
  deliver-Awaiting driver text = record {
    elem = first_attempt d.id routes.queue;
    due = next-single n now d.id routes.queue _ _ queue_is all_stable;
    everyone = refl;
    first = refl;
    mail = record {
      id = d.id;
      date = envelope.date;
      from = from;
      size = d.size;
      offset = (returned envelope mail).1;
    };
    recorded =
        mail-last driver n _ p.store.db.tables.mails
          (mail_row d.id d.size (returned envelope mail).1 d.from envelope.date) from
          (ap (λ (t : Tables). t.mails) d.tables) fresh_id (ap to_string from_same) text stable;
    sender = refl;
    whole = read-behind d.id s'.blobs return_path mail.bytes bytes_are;
  }
