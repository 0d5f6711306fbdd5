-- ===== src/Delivery/Restart.antt =====
-- A queued mail of internal/delivery across a stop of the process: NewDB and NewBlobs of
-- internal/storage find what Deliver has stored.
use briefmail.Base.{
  ℕ, ◌≡◌, ◌≢◌, refl, ◌∙◌, Bool-cases, inl, inr, Option, none, some, false, List, [], All, Bytes,
  any, ◌==◌, ltb,
}
use briefmail.Outcome.{Result, ok, err, no_rows}
use briefmail.Addressbook.{Entry}
use briefmail.Delivery.Mailman.{Post, Routes, deliver, route}
use briefmail.Delivery.Outbound.{Awaiting, IsStable, deliver-Awaiting}
use briefmail.Delivery.Queue.{next}
use briefmail.Delivery.Retrieval.{calm}
use briefmail.Model.Address.{Address, Normalizer, Envelope, to_string, string_value}
use briefmail.Settings.{Viper}
use briefmail.Storage.Blobs
use briefmail.Storage.Blobs.{Blobs}
use briefmail.Storage.Db.{Driver, Db, QueueElement, peek_queue}
use briefmail.Storage.Cleaner.{Store}
use briefmail.Storage.Open.{Disk, left, open_store, reopened, open_store-left}
use briefmail.Storage.Tables.{MailRow}
use briefmail.Stream.{Stream}

-- Without failures ReadOffset depends on the files only.
read_offset-files :
    (id offset : ℕ) (b : Blobs) (ids : ℕ → ℕ) (drawn : ℕ)
    → (Blobs.read_offset id offset (record b { ids = ids; drawn = drawn; faults = [] })).0
      ≡ (Blobs.read_offset id offset (record b { faults = [] })).0
unfolding Blobs.read_offset
read_offset-files id offset b ids drawn = by_file (b.files id) refl
  where
    by_file :
        (o : Option Bytes)
        → b.files id ≡ o
        → (Blobs.read_offset id offset (record b { ids = ids; drawn = drawn; faults = [] })).0
          ≡ (Blobs.read_offset id offset (record b { faults = [] })).0
    by_file none p = rw p refl
    by_file (some bytes) p = elim (Bool-cases (ltb 0 offset)) [
      | inl h ↦ rw (p, h) refl
      | inr h ↦ rw (p, h) refl
    ]

-- The result of next depends on the database only.
next-database :
    (n : Normalizer) (now : ℕ) (d : Db) (b b' : Blobs)
    → (next n now (record { db = d; blobs = b })).0 ≡ (next n now (record { db = d; blobs = b' })).0
unfolding next
next-database n now d b b' = by_result (peek_queue n d).0 refl
  where
    by_result :
        (x : Result QueueElement)
        → (peek_queue n d).0 ≡ x
        → (next n now (record { db = d; blobs = b })).0
          ≡ (next n now (record { db = d; blobs = b' })).0
    by_result (ok e) p = rw (next, p) refl
    by_result (err no_rows) p = rw (next, p) refl
    by_result (err e) p = rw (next, p) refl

Awaiting-reopened :
    (ids : ℕ → ℕ) (driver : Driver) (n : Normalizer) (now : ℕ) (from : Address) (to : List Address)
    (bytes : Bytes) (s : Store)
    → Awaiting driver n now from to bytes (calm s)
    → Awaiting driver n now from to bytes (reopened ids s)
Awaiting-reopened ids driver n now from to bytes s a = record {
  elem = a.elem;
  due =
      next-database n now (record { tables = s.db.tables; faults = [] }) (reopened ids s).blobs
        (calm s).blobs
      ∙ a.due;
  everyone = a.everyone;
  first = a.first;
  mail = a.mail;
  recorded = a.recorded;
  sender = a.sender;
  whole = read_offset-files a.mail.id a.mail.offset s.blobs ids 0 ∙ a.whole;
}

-- A mail that Deliver has accepted for recipients elsewhere survives a stop of the process: one that
-- starts later with the same settings, and opens its files without a failure, has a store in which the
-- mail is due for just these recipients, with the sender and all its bytes. Before Deliver the queue
-- is empty; the driver hands the text of the sender over as a string, the id that was drawn is new,
-- and the addresses are read back by ParseAddress as they are.
pub open_store-Awaiting :
    (lookup : Address → Option Entry) (envelope : Envelope) (mail : Stream) (n : Normalizer)
    (now : ℕ) (driver : Driver) (p : Post) (routes : Routes) (from : Address) (v : Viper)
    (ids : ℕ → ℕ) (disk : Disk)
    → (deliver lookup envelope mail p).0 ≡ ok tt
    → route lookup envelope.to ≡ ok routes
    → routes.queue ≢ []
    → p.store.db.tables.queue ≡ []
    → any (λ (r : MailRow). r.uuid == p.store.blobs.ids p.store.blobs.drawn) p.store.db.tables.mails
      ≡ false
    → envelope.from ≡ some from
    → IsStable n from
    → All (IsStable n) routes.queue
    → driver (to_string from) ≡ string_value (to_string from)
    → disk.faults ≡ []
    → (t : Store) × ((open_store v ids (left v (deliver lookup envelope mail p).1.store disk)).0
        ≡ ok t)
      × Awaiting driver n now from routes.queue mail.bytes t
open_store-Awaiting lookup envelope mail n now driver p routes from v ids disk accepted routed
      remote empty fresh from_is stable all_stable text calm_disk =
    (
      reopened ids s',
      open_store-left v ids s' disk calm_disk,
      Awaiting-reopened ids driver n now from routes.queue mail.bytes s' (
          deliver-Awaiting lookup envelope mail n now p routes from accepted routed remote empty
            fresh from_is stable all_stable driver text),
    )
  where
    s' : Store
    s' = (deliver lookup envelope mail p).1.store
