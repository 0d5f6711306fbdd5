-- ===== src/Delivery/Retrieval.antt =====
-- From Deliver of internal/delivery/mailman.go to Entries and Read of internal/storage: what the
-- owner of a mailbox finds of a mail.
use briefmail.Base.{
  ℕ, ◌≤◌, ◌<◌, ◌≡◌, refl, sym, ap, ◌∙◌, Bool, true, false, ◌&&◌, ◌||◌, Option, some, List, [], ◌∷◌,
  ◌++◌, map, Bytes, codes, any, ◌==◌, length, get_elem?, arith,
}
use briefmail.Outcome.{ok}
use briefmail.Addressbook.{Entry}
use briefmail.Delivery.Mailman.{Post, deliver, route, Routes, shown}
use briefmail.Model.Body.{header_text, prepend}
use briefmail.Delivery.Mailman.Laws.{Delivered, returned, deliver-Delivered}
use briefmail.Delivery.Mailman.Steps.{mail_row}
use briefmail.Model.Address.{Address, Envelope}
use briefmail.Storage.Cleaner.{Store}
use briefmail.Storage.Db
use briefmail.Storage.Db.{Db, as_entries, total_size}
use briefmail.Storage.Db.Transact.{as_entry}
use briefmail.Storage.Db.Listing.{
  box_mails, in_mailbox, any-append, get_elem?-any, get_elem?-lt, length-listed, last-listed,
  entries-calm,
}
use briefmail.Storage.Tables.{EntryRow, Tables, select_entries}
use briefmail.Stream.{Stream, read_all}

-- the store, when no later call fails
abbrev pub calm : Store → Store
calm s = record s {
  db = record { tables = s.db.tables; faults = [] };
  blobs = record s.blobs { faults = [] };
}

-- Number `number` of the list of a mailbox, from 0 on, is a mail with these bytes, under its true
-- size.
pub record Retrievable (box : ℕ) (bytes : Bytes) (s : Store) : Type 0 where
  pub id : ℕ
  pub list : List Db.Entry
  pub number : ℕ
  pub near : number < 1000
  pub listed : (Db.entries box s.db).0 ≡ ok (list, total_size list)
  pub entry_is : get_elem? list number ≡ some (record { mail_id = id; size = length bytes })
  pub stored : s.blobs.files id ≡ some bytes

eq_of_== : (m n : ℕ) → (m == n) ≡ true → m ≡ n
eq_of_== m n h = ground arith

self : (n : ℕ) → (n == n) ≡ true
self n = ground arith

is_entry : ℕ → ℕ → Db.Entry → Bool
is_entry id size e = e.mail_id == id && e.size == size

entry_of :
    (id size : ℕ) (e : Db.Entry)
    → is_entry id size e ≡ true
    → e ≡ record { mail_id = id; size = size }
unfolding is_entry
entry_of id size e h = ground arith

in_entries :
    (box id : ℕ) (boxes : List ℕ)
    → any (λ m. m == box) boxes ≡ true
    → any (λ (e : EntryRow). e.mailbox == box && e.mail == id) (map (as_entry id) boxes) ≡ true
in_entries box id [] h = cc
in_entries box id (m ∷ ms) h = ground (arith, self id, in_entries box id ms)

or_true : (a b : Bool) → b ≡ true → (a || b) ≡ true
or_true true b h = refl
or_true false b h = h

-- what a mail is stored as
abbrev pub stored_as : Envelope → Stream → Bytes
stored_as envelope mail =
    header_text (codes "Return-Path") (codes "<" ++ (shown envelope.from ++ codes ">"))
    ++ mail.bytes

pub read_all-ok : (s : Stream) (bytes : Bytes) → read_all s ≡ ok bytes → bytes ≡ s.bytes
read_all-ok s bytes h = ground arith

module _ (lookup : Address → Option Entry) (envelope : Envelope) (mail : Stream) (s s' : Store)
    (d : Delivered lookup envelope mail s s') where
  bytes_are : d.blob.bytes ≡ stored_as envelope mail
  unfolding prepend
  bytes_are = read_all-ok _ d.blob.bytes d.blob.all_read

  mails_are :
      s'.db.tables.mails
      ≡ s.db.tables.mails
        ++ (mail_row d.id d.size (returned envelope mail).1 d.from envelope.date ∷ [])
  mails_are = ap (λ (t : Tables). t.mails) d.tables

  entries_are : s'.db.tables.entries ≡ s.db.tables.entries ++ map (as_entry d.id) d.routes.mailboxes
  entries_are = ap (λ (t : Tables). t.entries) d.tables

  module _ (routes : Routes) (box : ℕ) (r : route lookup envelope.to ≡ ok routes)
      (to : any (λ m. m == box) routes.mailboxes ≡ true)
      (few : length (box_mails box s'.db.tables) ≤ 1000) where
    routes_are : routes ≡ d.routes
    routes_are = the_ok (sym r ∙ d.routed)
      where
        the_ok : {x y : Routes} → ok x ≡ ok y → x ≡ y
        the_ok q = cc

    has :
        in_mailbox box s'.db.tables
          (mail_row d.id d.size (returned envelope mail).1 d.from envelope.date)
        ≡ true
    has =
        let f : EntryRow → Bool = λ e. e.mailbox == box && e.mail == d.id in
        ap (any f) entries_are
        ∙ (any-append f s.db.tables.entries (map (as_entry d.id) d.routes.mailboxes)
            ∙ or_true _ _ (
                in_entries box d.id d.routes.mailboxes
                  (ap (λ (x : Routes). any (λ m. m == box) x.mailboxes) (sym routes_are) ∙ to)))

    in_list : any (is_entry d.id d.size) (as_entries (select_entries box s'.db.tables)) ≡ true
    unfolding is_entry
    in_list =
        last-listed (is_entry d.id d.size) box s'.db.tables s.db.tables.mails _ mails_are has few
          (ground (arith, self d.id, self d.size))

    Delivered-Retrievable : Retrievable box (stored_as envelope mail) (calm s')
    Delivered-Retrievable =
        let (number, e, at, is) = get_elem?-any (is_entry d.id d.size) _ in_list in
        record {
          id = d.id;
          list = as_entries (select_entries box s'.db.tables);
          number = number;
          near = omega (arith, get_elem?-lt _ number e at, length-listed box s'.db.tables);
          listed = entries-calm box s'.db.tables;
          entry_is =
              at
              ∙ ap some (
                  entry_of d.id d.size e is
                  ∙ ap (λ n. record { mail_id = d.id; size = n })
                      (d.blob.measured ∙ ap length bytes_are));
          stored = d.blob.stored ∙ ap some bytes_are;
        }

-- A mail that Deliver has accepted for a mailbox, of up to 1000 mails, is in the list of the mailbox,
-- under its size, and its file holds the Return-Path and behind it all bytes of the mail.
pub deliver-Retrievable :
    (lookup : Address → Option Entry) (envelope : Envelope) (mail : Stream) (p : Post)
    (routes : Routes) (box : ℕ)
    → (deliver lookup envelope mail p).0 ≡ ok tt
    → route lookup envelope.to ≡ ok routes
    → any (λ m. m == box) routes.mailboxes ≡ true
    → length (box_mails box (deliver lookup envelope mail p).1.store.db.tables) ≤ 1000
    → Retrievable box (stored_as envelope mail) (calm (deliver lookup envelope mail p).1.store)
deliver-Retrievable lookup envelope mail p routes box h r to few =
    Delivered-Retrievable lookup envelope mail p.store _
      (deliver-Delivered lookup envelope mail p h) routes box r to few
