-- ===== src/Delivery/Queue.antt =====
-- internal/delivery/queue.go: next, do, scheduleAttempt and addressesByDomain
pub mod Groups
pub mod Schedule
pub mod Sorted
pub mod Row
pub mod Again
pub mod Database
pub mod Peek
use briefmail.Base.{
  ℕ, suc, ◌+◌, ◌-◌, ◌*◌, Bool, true, false, Option, none, some, List, [], ◌∷◌, ◌++◌, Bytes, equal,
  ltb, if◌then◌else◌,
}
use briefmail.Outcome.{Error, no_rows, Result, ok, err, Exec}
use briefmail.Delivery.Client.{Network, Client, connect, send, close}
use briefmail.Model.Address.{Address, Normalizer}
use briefmail.Storage.Blobs
use briefmail.Storage.Cleaner.{Store, on_db, on_blobs}
use briefmail.Storage.Db
use briefmail.Storage.Db.{Driver, Mail, QueueElement, peek_queue, update_queue, delete_from_queue}
use briefmail.Stream.{Stream}

-- scheduleAttempt, with the time in seconds
unfoldable pub schedule_attempt : ℕ → ℕ → Bool × ℕ
schedule_attempt now attempt =
    if ltb attempt 5
    then (true, now + 10 * 60)
    else if ltb attempt 10
    then (true, now + 30 * 60)
    else if ltb attempt 30
    then (true, now + 60 * 60)
    else (false, now)

-- a map[string][]*model.Address, in any order
abbrev pub Groups : Type 0
Groups = List (Bytes × List Address)

-- `domains[addr.Domain] = append(domains[addr.Domain], addr)`
unfoldable pub add_address : Address → Groups → Groups
unfolding equal
add_address a [] = (a.domain, a ∷ []) ∷ []
add_address a ((domain, as') ∷ rest) =
    let rest' = add_address a rest in
    if equal domain a.domain then (domain, as' ++ (a ∷ [])) ∷ rest else (domain, as') ∷ rest'

add_each : List Address → Groups → Groups
unfolding add_address
add_each [] groups = groups
add_each (a ∷ as') groups = add_each as' (add_address a groups)

-- addressesByDomain
unfoldable pub addresses_by_domain : List Address → Groups
unfolding add_each
addresses_by_domain as' = add_each as' []

-- What the worker is configured with and calls; `ranged` is the order in which a map is ranged over.
pub record QueueConfig (W : Type 0) : Type 0 where
  pub normalizer : Normalizer
  pub driver : Driver
  pub network : Network W
  pub hostname : Bytes
  pub ranged : Groups → Groups

-- the lists of `do`
pub record Outcomes : Type 0 where
  pub delivered : List Address
  pub undeliverable : List Address
  pub pending : List Address

-- what `do` changes, and the clients whose close it has deferred, the last one first
pub record Job (W : Type 0) : Type 0 where
  pub store : Store
  pub net : W
  pub opened : List Client

-- `pending = append(pending, addresses...)`
abbrev all_pending : List Address → Outcomes → Outcomes
all_pending as' o = record o { pending = o.pending ++ as' }

abbrev append_client : Client → Outcomes → Outcomes
append_client c o = record {
  delivered = o.delivered ++ c.delivered;
  undeliverable = o.undeliverable ++ c.undeliverable;
  pending = o.pending ++ c.pending;
}

-- (*QueueWorker).next: an element, or how long to sleep
unfoldable pub next : Normalizer → ℕ → Exec Store (Option QueueElement × ℕ)
unfolding peek_queue
next n now s =
    let r = on_db (peek_queue n) s in
    elim r.0 [
      | err no_rows ↦ (ok (none, 0), r.1)
      | err e ↦ (err e, r.1)
      | ok e ↦ (ok (if ltb now e.date then (none, e.date - now) else (some e, 0)), r.1)
    ]

module _ {W : Type 0} (cfg : QueueConfig W) where
  -- the rest of a round, for a client that is connected
  send_group : Mail → List Address → Client → Outcomes → Job W → Outcomes × Job W
  unfolding Blobs.read_offset send
  send_group mail as' c o j =
      let r = on_blobs (Blobs.read_offset mail.id mail.offset) j.store in
      elim r.0 [
        | err e ↦ (all_pending as' o, record j { store = r.1 })
        | ok body ↦
            let x = send cfg.network body cfg.hostname mail.from as' c j.net in
            elim x.0 [
              | err e ↦ (all_pending as' o, record j { store = r.1; net = x.1 })
              | ok c' ↦ (append_client c' o, record j { store = r.1; net = x.1 })
            ]
      ]

  -- a round of the loop over the domains
  unfoldable pub deliver_group : Mail → Bytes × List Address → Outcomes → Job W → Outcomes × Job W
  unfolding connect send_group
  deliver_group mail (domain, as') o j =
      let x = connect cfg.network domain j.net in
      elim x.0 [
        | err e ↦ (all_pending as' o, record j { net = x.1 })
        | ok c ↦ send_group mail as' c o (record j { net = x.1; opened = c ∷ j.opened })
      ]

  unfoldable pub deliver_groups : Mail → Groups → Outcomes → Job W → Outcomes × Job W
  unfolding deliver_group
  deliver_groups mail [] o j = (o, j)
  deliver_groups mail (g ∷ gs) o j =
      let r = deliver_group mail g o j in deliver_groups mail gs r.0 r.1

  close_each : List Client → W → W
  unfolding close
  close_each [] w = w
  close_each (c ∷ cs) w = close_each cs (close cfg.network c w)

-- the test that there are no more addresses
abbrev pub is_empty : List Address → Bool
is_empty [] = true
is_empty (_ ∷ _) = false

-- What the queue is told of the outcomes: UpdateQueue for another attempt, whose errors are logged;
-- an attempt that is the last one makes the pending recipients undeliverable.
unfoldable pub settle_pending : ℕ → QueueElement → Outcomes → Store → Outcomes × Store
unfolding schedule_attempt update_queue
settle_pending now elem o s =
    let (again, date) = schedule_attempt now (suc elem.attempts) in
    if is_empty o.pending
    then (o, s)
    else if again
    then (o, (on_db (update_queue elem.mail_id o.pending date) s).1)
    else (record o { undeliverable = o.undeliverable ++ o.pending; pending = [] }, s)

-- DeleteFromQueue, if every recipient is served
unfoldable pub settle_done : QueueElement → Outcomes × Store → Store
unfolding delete_from_queue
settle_done elem (o, s) =
    if is_empty o.pending
    then (if is_empty o.undeliverable then (on_db (delete_from_queue elem.mail_id) s).1 else s)
    else s

-- the end of `do`
unfoldable pub settle : ℕ → QueueElement → Outcomes → Store → Store
unfolding settle_pending settle_done
settle now elem o s = settle_done elem (settle_pending now elem o s)

abbrev pub no_outcomes : Outcomes
no_outcomes = record { delivered = []; undeliverable = []; pending = [] }

-- (*QueueWorker).do, at the time `now` of scheduleAttempt
unfoldable pub deliver_element :
    {W : Type 0} → QueueConfig W → ℕ → QueueElement → Store → W → Store × W
unfolding Db.mail addresses_by_domain deliver_groups settle close_each
deliver_element cfg now elem s w =
    let m = on_db (Db.mail cfg.driver cfg.normalizer elem.mail_id) s in
    elim m.0 [
      | err e ↦ (m.1, w)
      | ok mail ↦
          let (o, j) =
            deliver_groups cfg mail (cfg.ranged (addresses_by_domain elem.to)) no_outcomes
              (record { store = m.1; net = w; opened = [] }) in
          (settle now elem o j.store, close_each cfg j.opened j.net)
    ]
