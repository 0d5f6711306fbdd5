-- ===== src/Delivery/Mailman.antt =====
-- internal/delivery/mailman.go
pub mod Steps
pub mod Laws
pub mod Errors
use briefmail.Base.{ℕ, Option, none, some, List, [], ◌∷◌, ◌++◌, Bytes, codes}
use briefmail.Outcome.{
  Error, could_not_deliver, panic, Result, ok, err, Exec, Action, pure, ◌>>=◌, ◌>>◌,
}
use briefmail.Addressbook.{Entry, EntryKind, local, forward, remote}
use briefmail.Delivery.Worker.{Worker, wake_up}
use briefmail.Model.Address.{Address, Envelope, to_string}
use briefmail.Model.Body.{prepend}
use briefmail.Storage.Blobs
use briefmail.Storage.Cleaner.{Store, on_db, on_blobs}
use briefmail.Storage.Db.{add_mail, add_entries, add_to_queue}
use briefmail.Stream.{Stream}

-- What a Mailman reaches through its fields.
pub record Post : Type 0 where
  pub store : Store
  pub worker : Worker

abbrev pub on_store : {A : Type 0} → Exec Store A → Exec Post A
on_store m p = let r = m p.store in (r.0, record p { store = r.1 })

-- `fmt.Sprintf("%s", envelope.From)`
abbrev pub shown : Option Address → Bytes
shown none = codes "<nil>"
shown (some a) = to_string a

-- The slices that the loop over the recipients fills.
pub record Routes : Type 0 where
  pub mailboxes : List ℕ
  pub queue : List Address

-- `append(mailboxes, *entry.Mailbox)`, with the loop's later rounds
to_mailbox : Option ℕ → Result Routes → Result Routes
to_mailbox none rest = err panic
to_mailbox (some m) (ok r) = ok (record r { mailboxes = m ∷ r.mailboxes })
to_mailbox (some m) (err e) = err e

-- `append(queue, entry.Address)`. A nil address would be a null in the queue's JSON, which no
-- worker can read; it counts as a panic here.
to_queue : Option Address → Result Routes → Result Routes
to_queue none rest = err panic
to_queue (some a) (ok r) = ok (record r { queue = a ∷ r.queue })
to_queue (some a) (err e) = err e

add_route : EntryKind → Entry → Result Routes → Result Routes
unfolding to_mailbox to_queue
add_route local e rest = to_mailbox e.mailbox rest
add_route forward e rest = to_queue e.address rest
add_route remote e rest = to_queue e.address rest

route_entry : Option Entry → Result Routes → Result Routes
unfolding add_route
route_entry none rest = err could_not_deliver
route_entry (some e) rest = add_route e.kind e rest

-- the loop over `envelope.To`
unfoldable pub route : (Address → Option Entry) → List Address → Result Routes
unfolding route_entry
route lookup [] = ok (record { mailboxes = []; queue = [] })
route lookup (a ∷ rest) = route_entry (lookup a) (route lookup rest)

pub add_to_mailboxes : ℕ → List ℕ → Action Store
add_to_mailboxes id [] = pure tt
add_to_mailboxes id (m ∷ ms) = on_db (add_entries id (m ∷ ms))

pub add_outbound : ℕ → List Address → Action Post
add_outbound id [] = pure tt
add_outbound id (a ∷ as') = do
  on_store (on_db (add_to_queue id (a ∷ as')))
  λ p. (ok tt, record p { worker = wake_up p.worker })

-- the call of AddMail, with the blob deleted if it fails
pub record_mail : ℕ → ℕ → ℕ → Envelope → Action Store
record_mail id size offset envelope s =
    let (r, s') = on_db (add_mail id size offset envelope) s in
    elim r [ ok _ ↦ (ok tt, s') | err e ↦ (err e, (on_blobs (Blobs.delete id) s').1) ]

-- (*Mailman).Deliver
unfoldable pub deliver : (Address → Option Entry) → Envelope → Stream → Action Post
unfolding prepend record_mail route add_to_mailboxes add_outbound
deliver lookup envelope mail = do
  let (body, offset) =
      prepend (codes "Return-Path") (codes "<" ++ (shown envelope.from ++ codes ">")) mail
  (id, size) ← on_store (on_blobs (Blobs.write body))
  on_store (record_mail id size offset envelope)
  routes ← (λ p. (route lookup envelope.to, p))
  on_store (add_to_mailboxes id routes.mailboxes)
  add_outbound id routes.queue
