-- ===== src/Delivery/Queue/Database.antt =====
-- What an attempt of internal/delivery/queue.go does to the database.
use briefmail.Base.{ℕ, suc, ◌≡◌, refl, ap, ◌∙◌, inl, inr, Bool-cases, List, [], ◌∷◌, Bytes}
use briefmail.Outcome.{Result, ok, err}
use briefmail.Delivery.Client.{Client, connect, send}
use briefmail.Delivery.Queue.{
  Groups, QueueConfig, Outcomes, Job, send_group, deliver_group, deliver_groups, is_empty,
  schedule_attempt, settle_pending, settle_done, settle, addresses_by_domain, no_outcomes,
  deliver_element,
}
use briefmail.Model.Address.{Address}
use briefmail.Storage.Blobs
use briefmail.Storage.Cleaner.{Store, on_db, on_blobs}
use briefmail.Storage.Db
use briefmail.Storage.Db.{Db, Mail, QueueElement, update_queue, delete_from_queue}
use briefmail.Storage.Db.Transact.{transact-works}
use briefmail.Stream.{Stream}

-- a round of the loop leaves the database alone
record Leaves {W : Type 0} (d : Db) (r : Outcomes × Job W) : Type 0 where
  database : r.1.store.db ≡ d

module _ {W : Type 0} (cfg : QueueConfig W) where
  send_group-Leaves :
      (mail : Mail) (g : Bytes × List Address) (c : Client) (o : Outcomes) (j : Job W)
      → Leaves j.store.db (send_group cfg mail g.1 c o j)
  unfolding send_group
  send_group-Leaves mail g c o j =
      by_body (on_blobs (Blobs.read_offset mail.id mail.offset) j.store).0 refl
    where
      by_send :
          (body : Stream) (x : Result Client)
          → (on_blobs (Blobs.read_offset mail.id mail.offset) j.store).0 ≡ ok body
          → (send cfg.network body cfg.hostname mail.from g.1 c j.net).0 ≡ x
          → Leaves j.store.db (send_group cfg mail g.1 c o j)
      by_send body (err e) p q = rw (p, q, send_group) (record { database = refl })
      by_send body (ok c') p q = rw (p, q, send_group) (record { database = refl })

      by_body :
          (x : Result Stream)
          → (on_blobs (Blobs.read_offset mail.id mail.offset) j.store).0 ≡ x
          → Leaves j.store.db (send_group cfg mail g.1 c o j)
      by_body (err e) p = rw (p, send_group) (record { database = refl })
      by_body (ok body) p =
          by_send body (send cfg.network body cfg.hostname mail.from g.1 c j.net).0 p refl

  deliver_group-Leaves :
      (mail : Mail) (g : Bytes × List Address) (o : Outcomes) (j : Job W)
      → Leaves j.store.db (deliver_group cfg mail g o j)
  unfolding deliver_group
  deliver_group-Leaves mail g o j = by_connect (connect cfg.network g.0 j.net).0 refl
    where
      by_connect :
          (x : Result Client)
          → (connect cfg.network g.0 j.net).0 ≡ x
          → Leaves j.store.db (deliver_group cfg mail g o j)
      by_connect (err e) p = rw (p, deliver_group) (record { database = refl })
      by_connect (ok c) p =
          rw (p, deliver_group)
            (record {
              database =
                  (send_group-Leaves mail g c o (record j {
                    net = (connect cfg.network g.0 j.net).1;
                    opened = c ∷ j.opened;
                  })).database;
            })

  deliver_groups-db :
      (mail : Mail) (gs : Groups) (o : Outcomes) (j : Job W)
      → (deliver_groups cfg mail gs o j).1.store.db ≡ j.store.db
  unfolding deliver_groups
  deliver_groups-db mail [] o j = refl
  deliver_groups-db mail (g ∷ gs) o j =
      let r = deliver_group cfg mail g o j in
      deliver_groups-db mail gs r.0 r.1 ∙ (deliver_group-Leaves mail g o j).database

pending-works :
    (now : ℕ) (elem : QueueElement) (o : Outcomes) (s : Store)
    → s.db.faults ≡ []
    → (settle_pending now elem o s).1.db.faults ≡ []
unfolding settle_pending update_queue
pending-works now elem o s w = elim (Bool-cases (is_empty o.pending)) [
  | inl none_left ↦ rw none_left w
  | inr left ↦ elim (Bool-cases (schedule_attempt now (suc elem.attempts)).0) [
    | inl again ↦ rw (left, again) (transact-works _ s.db w)
    | inr last ↦ rw (left, last) w
  ]
]

done-works :
    (elem : QueueElement) (o : Outcomes) (s : Store)
    → s.db.faults ≡ []
    → (settle_done elem (o, s)).db.faults ≡ []
unfolding settle_done delete_from_queue
done-works elem o s w = elim (Bool-cases (is_empty o.pending)) [
  | inr left ↦ rw left w
  | inl none_left ↦ elim (Bool-cases (is_empty o.undeliverable)) [
    | inl served ↦ rw (none_left, served) (transact-works _ s.db w)
    | inr refused ↦ rw (none_left, refused) w
  ]
]

-- A database that does not fail does not fail after an attempt either.
pub deliver_element-works :
    {W : Type 0} (cfg : QueueConfig W) (now : ℕ) (elem : QueueElement) (s : Store) (net : W)
    → s.db.faults ≡ []
    → (deliver_element cfg now elem s net).0.db.faults ≡ []
unfolding deliver_element settle Db.mail
deliver_element-works {W} cfg now elem s net w =
    by_mail (on_db (Db.mail cfg.driver cfg.normalizer elem.mail_id) s).0 refl
      (transact-works _ s.db w)
  where
    by_mail :
        (x : Result Mail)
        → (on_db (Db.mail cfg.driver cfg.normalizer elem.mail_id) s).0 ≡ x
        → (on_db (Db.mail cfg.driver cfg.normalizer elem.mail_id) s).1.db.faults ≡ []
        → (deliver_element cfg now elem s net).0.db.faults ≡ []
    by_mail (err e) p v = rw (p, deliver_element) v
    by_mail (ok mail) p v =
        let gs = cfg.ranged (addresses_by_domain elem.to) in
        let start : Job W = record {
          store = (on_db (Db.mail cfg.driver cfg.normalizer elem.mail_id) s).1;
          net = net;
          opened = [];
        } in
        let r = deliver_groups cfg mail gs no_outcomes start in
        let q = settle_pending now elem r.0 r.1.store in
        rw (p, deliver_element)
          (done-works elem q.0 q.1 (
            pending-works now elem r.0 r.1.store
              (ap (λ (d : Db). d.faults) (deliver_groups-db cfg mail gs no_outcomes start) ∙ v)))
