-- ===== src/Delivery/Mailman/Errors.antt =====
-- What an error of Deliver in internal/delivery/mailman.go leaves of the queue.
use briefmail.Base.{
  ℕ, ◌≡◌, refl, ap, ◌∙◌, inl, inr, Bool-cases, Option, none, some, List, [], ◌∷◌, any, ◌&&◌, ◌==◌,
}
use briefmail.Outcome.{Error, Result, ok, err, Exec, continue, head_fault, tail_faults, ◌>>=◌}
use briefmail.Addressbook.{Entry}
use briefmail.Delivery.Mailman.{
  Post, on_store, route, add_to_mailboxes, add_outbound, record_mail, deliver,
}
use briefmail.Model.Address.{Address, Envelope}
use briefmail.Storage.Blobs
use briefmail.Storage.Cleaner.{Store, on_db, on_blobs}
use briefmail.Storage.Db.{
  Db, transact, run_tx, finish_tx, exec, add_mail, add_entries, insert_entries, add_to_queue,
}
use briefmail.Storage.Tables.{MailRow, EntryRow, Tables, insert_mail, insert_entry}
use briefmail.Stream.{Stream}

transact-queue :
    {A : Type 0} (fn : Exec Tables A) (d : Db)
    → ((t : Tables) → (fn t).1.queue ≡ t.queue)
    → (transact fn d).1.tables.queue ≡ d.tables.queue
unfolding transact run_tx
transact-queue {A} fn d same = by_fault (head_fault d.faults) refl
  where
    by_run :
        (r : Result A) (t : Tables)
        → t.queue ≡ d.tables.queue
        → (finish_tx (r, t) (record d { faults = tail_faults d.faults })).1.tables.queue
          ≡ d.tables.queue
    by_run (ok a) t p = unfold finish_tx in p
    by_run (err e) t p = unfold finish_tx in refl

    by_fault :
        (f : Option Error)
        → head_fault d.faults ≡ f
        → (transact fn d).1.tables.queue ≡ d.tables.queue
    by_fault (some e) p = rw (p, transact) refl
    by_fault none p = rw (p, transact) (by_run (fn d.tables).0 (fn d.tables).1 (same d.tables))

transact-err :
    {A : Type 0} (fn : Exec Tables A) (d : Db) (e : Error)
    → (transact fn d).0 ≡ err e
    → (transact fn d).1.tables ≡ d.tables
unfolding transact run_tx
transact-err {A} fn d e h = by_fault (head_fault d.faults) refl
  where
    by_run :
        (r : Result A) (t : Tables)
        → (finish_tx (r, t) (record d { faults = tail_faults d.faults })).0 ≡ err e
        → (finish_tx (r, t) (record d { faults = tail_faults d.faults })).1.tables ≡ d.tables
    by_run (ok a) t p = unfold finish_tx in cc
    by_run (err x) t p = unfold finish_tx in refl

    by_fault : (f : Option Error) → head_fault d.faults ≡ f → (transact fn d).1.tables ≡ d.tables
    by_fault (some x) p = rw (p, transact) refl
    by_fault none p =
        rw (p, transact) (by_run (fn d.tables).0 (fn d.tables).1 (rw (p, transact) at h))

exec-queue :
    (f : Tables → Result Tables) (t : Tables)
    → ((u : Tables) → f t ≡ ok u → u.queue ≡ t.queue)
    → (exec f t).1.queue ≡ t.queue
exec-queue f t same = by_result (f t) refl
  where
    by_result : (r : Result Tables) → f t ≡ r → (exec f t).1.queue ≡ t.queue
    by_result (ok u) p = rw (exec, p) (same u p)
    by_result (err e) p = rw (exec, p) refl

insert_mail-queue : (row : MailRow) (t u : Tables) → insert_mail row t ≡ ok u → u.queue ≡ t.queue
unfolding insert_mail
insert_mail-queue row t u p =
    elim (Bool-cases (any (λ (r : MailRow). r.uuid == row.uuid) t.mails)) [
      | inl taken ↦ cc (rw taken at p)
      | inr free ↦ ap (λ (x : Tables). x.queue) (the_tables (rw free at p))
    ]
  where
    the_tables : {x : Tables} → ok x ≡ ok u → u ≡ x
    the_tables q = cc

insert_entry-queue : (m mail : ℕ) (t u : Tables) → insert_entry m mail t ≡ ok u → u.queue ≡ t.queue
unfolding insert_entry
insert_entry-queue m mail t u p =
    elim (Bool-cases (any (λ (r : EntryRow). r.mailbox == m && r.mail == mail) t.entries)) [
      | inl taken ↦ cc (rw taken at p)
      | inr free ↦ ap (λ (x : Tables). x.queue) (the_tables (rw free at p))
    ]
  where
    the_tables : {x : Tables} → ok x ≡ ok u → u ≡ x
    the_tables q = cc

insert_entries-queue :
    (id : ℕ) (ms : List ℕ) (t : Tables) → (insert_entries id ms t).1.queue ≡ t.queue
unfolding insert_entries
insert_entries-queue id [] t = refl
insert_entries-queue id (m ∷ ms) t =
    by_result (exec (insert_entry m id) t).0 (exec (insert_entry m id) t).1
      (exec-queue (insert_entry m id) t (insert_entry-queue m id t))
      (λ u. insert_entries-queue id ms u)
  where
    by_result :
        (r : Result (Unit {0})) (u : Tables)
        → u.queue ≡ t.queue
        → ((v : Tables) → (insert_entries id ms v).1.queue ≡ v.queue)
        → (continue r (λ _. insert_entries id ms) u).1.queue ≡ t.queue
    by_result (ok x) u p next = next u ∙ p
    by_result (err e) u p next = p

-- the queue and the worker are as they were
record Same (p q : Post) : Type 0 where
  queue : q.store.db.tables.queue ≡ p.store.db.tables.queue
  worker : q.worker ≡ p.worker

Same-trans : {p q r : Post} → Same p q → Same q r → Same p r
Same-trans h k = record { queue = k.queue ∙ h.queue; worker = k.worker ∙ h.worker }

-- a step that is the same with an error
record OnError {A : Type 0} (p : Post) (r : Result A × Post) : Type 0 where
  same : (e : Error) → r.0 ≡ err e → Same p r.1

bind-OnError :
    {A B : Type 0} (m : Exec Post A) (f : A → Exec Post B) (p : Post)
    → Same p (m p).1
    → ((a : A) (q : Post) → OnError q (f a q))
    → OnError p ((m >>= f) p)
bind-OnError {A} {B} m f p h k = by_result (m p).0
  where
    by_result : (r : Result A) → OnError p (continue r f (m p).1)
    by_result (ok a) = record { same = λ e q. Same-trans h ((k a (m p).1).same e q) }
    by_result (err x) = record { same = λ e q. h }

store-Same :
    {A : Type 0} (m : Exec Store A) (p : Post)
    → (m p.store).1.db.tables.queue ≡ p.store.db.tables.queue
    → Same p (on_store m p).1
store-Same m p h = record { queue = h; worker = refl }

add_mail-queue :
    (id size offset : ℕ) (envelope : Envelope) (d : Db)
    → (add_mail id size offset envelope d).1.tables.queue ≡ d.tables.queue
unfolding add_mail
add_mail-queue id size offset envelope d = by_from envelope.from refl
  where
    by_from :
        (o : Option Address)
        → envelope.from ≡ o
        → (add_mail id size offset envelope d).1.tables.queue ≡ d.tables.queue
    by_from none p = rw (add_mail, p) refl
    by_from (some a) p =
        rw (add_mail, p)
          (transact-queue _ d (λ t. exec-queue (insert_mail _) t (insert_mail-queue _ t)))

record_mail-queue :
    (id size offset : ℕ) (envelope : Envelope) (s : Store)
    → (record_mail id size offset envelope s).1.db.tables.queue ≡ s.db.tables.queue
unfolding record_mail
record_mail-queue id size offset envelope s =
    by_result (on_db (add_mail id size offset envelope) s).0 refl
  where
    by_result :
        (r : Result (Unit {0}))
        → (on_db (add_mail id size offset envelope) s).0 ≡ r
        → (record_mail id size offset envelope s).1.db.tables.queue ≡ s.db.tables.queue
    by_result (ok x) p = rw (record_mail, p) (add_mail-queue id size offset envelope s.db)
    by_result (err e) p = rw (record_mail, p) (add_mail-queue id size offset envelope s.db)

add_to_mailboxes-queue :
    (id : ℕ) (ms : List ℕ) (s : Store)
    → (add_to_mailboxes id ms s).1.db.tables.queue ≡ s.db.tables.queue
unfolding add_to_mailboxes add_entries
add_to_mailboxes-queue id [] s = refl
add_to_mailboxes-queue id (m ∷ ms) s =
    transact-queue (insert_entries id (m ∷ ms)) s.db (insert_entries-queue id (m ∷ ms))

add_outbound-OnError : (id : ℕ) (to : List Address) (p : Post) → OnError p (add_outbound id to p)
unfolding add_outbound add_to_queue
add_outbound-OnError id [] p = record { same = λ e q. cc }
add_outbound-OnError id (a ∷ to) p = by_result (on_db (add_to_queue id (a ∷ to)) p.store).0 refl
  where
    by_result :
        (r : Result (Unit {0}))
        → (on_db (add_to_queue id (a ∷ to)) p.store).0 ≡ r
        → OnError p (add_outbound id (a ∷ to) p)
    by_result (ok x) h = rw (add_outbound, h) (record { same = λ e q. cc })
    by_result (err x) h =
        rw (add_outbound, h)
          (record {
            same = λ e q. record {
              queue = ap (λ (t : Tables). t.queue) (transact-err _ p.store.db x h);
              worker = refl;
            };
          })

deliver-OnError :
    (lookup : Address → Option Entry) (envelope : Envelope) (mail : Stream) (p : Post)
    → OnError p (deliver lookup envelope mail p)
unfolding deliver
deliver-OnError lookup envelope mail p =
    bind-OnError (on_store (on_blobs (Blobs.write _))) _ p
      (store-Same (on_blobs (Blobs.write _)) p refl)
      (λ x q.
        bind-OnError (on_store (record_mail x.0 x.1 _ envelope)) _ q
          (store-Same (record_mail x.0 x.1 _ envelope) q
            (record_mail-queue x.0 x.1 _ envelope q.store))
          (λ _ q'.
            bind-OnError (λ r. (route lookup envelope.to, r)) _ q'
              (record { queue = refl; worker = refl })
              (λ routes r.
                bind-OnError (on_store (add_to_mailboxes x.0 routes.mailboxes)) _ r
                  (store-Same (add_to_mailboxes x.0 routes.mailboxes) r
                    (add_to_mailboxes-queue x.0 routes.mailboxes r.store))
                  (λ _ r'. add_outbound-OnError x.0 routes.queue r'))))

-- A Deliver that returns an error, from whichever of its calls, leaves the queue of outbound mails and
-- the worker as they were.
pub deliver-err :
    (lookup : Address → Option Entry) (envelope : Envelope) (mail : Stream) (p : Post) (e : Error)
    → (deliver lookup envelope mail p).0 ≡ err e
    → ((deliver lookup envelope mail p).1.store.db.tables.queue ≡ p.store.db.tables.queue)
      × ((deliver lookup envelope mail p).1.worker ≡ p.worker)
deliver-err lookup envelope mail p e h =
    let k = (deliver-OnError lookup envelope mail p).same e h in (k.queue, k.worker)
