-- ===== src/Delivery/Mailman/Laws.antt =====
-- What a delivery has stored when Deliver returns no error.
use briefmail.Base.{ℕ, ◌≡◌, refl, ap, ◌∙◌, Option, some, [], ◌∷◌, ◌++◌, map, codes}
use briefmail.Outcome.{ok, Exec, ◌>>◌}
use briefmail.Outcome.Ends.{Ends, bind-Ends, map-Ends}
use briefmail.Addressbook.{Entry}
use briefmail.Delivery.Mailman.{
  Post, Routes, route, deliver, on_store, shown, record_mail, add_to_mailboxes, add_outbound,
}
use briefmail.Model.Address.{Address, Envelope}
use briefmail.Model.Body.{prepend}
use briefmail.Storage.Blobs
use briefmail.Storage.Blobs.{Blobs}
use briefmail.Storage.Blobs.Write.{Written, write-Ends}
use briefmail.Storage.Cleaner.{Store, on_blobs}
use briefmail.Storage.Db.Transact.{as_entry}
use briefmail.Storage.Tables.{Tables}
use briefmail.Stream.{Stream}
use briefmail.Delivery.Mailman.Steps.{
  mail_row, Tabled, with_mail, queue_rows, record_mail-Ends, add_to_mailboxes-Ends,
  add_outbound-Ends,
}

-- the mail under its Return-Path, and how long that is
abbrev pub returned : Envelope → Stream → Stream × ℕ
returned envelope mail =
    prepend (codes "Return-Path") (codes "<" ++ (shown envelope.from ++ codes ">")) mail

-- A mail is delivered to each of its recipients: it is one new blob that holds all of it, one row
-- of the mails, one entry for each local recipient, and, when there are others, one place in the
-- queue with all of them. Nothing else is changed.
pub record Delivered (lookup : Address → Option Entry) (envelope : Envelope) (mail : Stream)
    (s s' : Store) : Type 0 where
  pub routes : Routes
  pub routed : route lookup envelope.to ≡ ok routes
  pub from : Address
  pub from_is : envelope.from ≡ some from
  pub id : ℕ
  pub size : ℕ
  pub blob : Written (returned envelope mail).0 s.blobs id size s'.blobs
  pub tables : s'.db.tables ≡ record s.db.tables {
    mails =
        s.db.tables.mails ++ (mail_row id size (returned envelope mail).1 from envelope.date ∷ []);
    entries = s.db.tables.entries ++ map (as_entry id) routes.mailboxes;
    queue = s.db.tables.queue ++ queue_rows id routes.queue;
  }

on_store-Ends :
    {A : Type 0} (m : Exec Store A) (p : Post) (P : A → Store → Type 0)
    → Ends P (m p.store)
    → Ends (λ a q. P a q.store) (on_store m p)
on_store-Ends m p P h = record { holds = λ a e. h.holds a e }

-- the files of a blob that was written stay through changes of the tables
keep_blob :
    (r : Stream) (b : Blobs) (id size : ℕ) (b' b'' : Blobs)
    → b''.files ≡ b'.files
    → Written r b id size b'
    → Written r b id size b''
keep_blob r b id size b' b'' e w = record {
  bytes = w.bytes;
  all_read = w.all_read;
  fresh = w.fresh;
  stored = ap (λ f. f id) e ∙ w.stored;
  measured = w.measured;
  others = λ j ne. ap (λ f. f j) e ∙ w.others j ne;
}

module _ (lookup : Address → Option Entry) (envelope : Envelope) (mail : Stream) (p : Post) where
  abbrev Goal : Post → Type 0
  Goal q = Delivered lookup envelope mail p.store q.store

  -- the last two steps, on what the first ones have left
  outbound-Ends :
      (id size : ℕ) (from : Address) (routes : Routes) (s : Store) (q : Post)
      → Written (returned envelope mail).0 p.store.blobs id size s.blobs
      → s.db.tables ≡ p.store.db.tables
      → envelope.from ≡ some from
      → Tabled s
          (with_mail id size (returned envelope mail).1 from envelope.date s.db.tables)
          q.store
      → route lookup envelope.to ≡ ok routes
      → Ends
          (λ _ q'. Goal q')
          ((do on_store (add_to_mailboxes id routes.mailboxes); add_outbound id routes.queue) q)
  outbound-Ends id size from routes s q w t f k r =
      let r1 = on_store (add_to_mailboxes id routes.mailboxes) q in
      bind-Ends
        (λ _ q'.
          Tabled q.store
            (record q.store.db.tables {
              entries = q.store.db.tables.entries ++ map (as_entry id) routes.mailboxes;
            })
            q'.store)
        (λ _ q'. Goal q') r1.0 (λ _. add_outbound id routes.queue) r1.1
        (on_store-Ends (add_to_mailboxes id routes.mailboxes) q _
          (add_to_mailboxes-Ends id routes.mailboxes q.store))
        (λ _ k'.
          map-Ends _ (λ _ q'. Goal q') (add_outbound id routes.queue r1.1)
            (λ _ k''. record {
              routes = routes;
              routed = r;
              from = from;
              from_is = f;
              id = id;
              size = size;
              blob = keep_blob _ _ id size _ _ (k''.files ∙ k'.files ∙ k.files) w;
              tables =
                  k''.tables
                  ∙ ap (λ (x : Tables). record x { queue = x.queue ++ queue_rows id routes.queue })
                      (k'.tables
                        ∙ ap
                            (λ (x : Tables). record x {
                              entries = x.entries ++ map (as_entry id) routes.mailboxes;
                            })
                            (k.tables
                              ∙ ap (with_mail id size (returned envelope mail).1 from envelope.date)
                                  t));
            })
            (add_outbound-Ends id routes.queue r1.1))

  deliver-Ends : Ends (λ _ q. Goal q) (deliver lookup envelope mail p)
  unfolding deliver
  deliver-Ends =
      let body = (returned envelope mail).0 in
      let offset = (returned envelope mail).1 in
      let r1 = on_store (on_blobs (Blobs.write body)) p in
      bind-Ends (λ x q. Written body p.store.blobs x.0 x.1 q.store.blobs) (λ _ q. Goal q) r1.0 _
        r1.1 (record { holds = λ a e. (write-Ends body p.store.blobs).holds a e })
        (λ x w.
          let r2 = on_store (record_mail x.0 x.1 offset envelope) r1.1 in
          bind-Ends
            (λ _ q.
              (from : Address) × (envelope.from ≡ some from)
              × Tabled r1.1.store (with_mail x.0 x.1 offset from envelope.date r1.1.store.db.tables)
                  q.store)
            (λ _ q. Goal q) r2.0 _ r2.1
            (on_store-Ends (record_mail x.0 x.1 offset envelope) r1.1 _
              (record_mail-Ends x.0 x.1 offset envelope r1.1.store))
            (λ _ y.
              bind-Ends (λ rs _. route lookup envelope.to ≡ ok rs) (λ _ q. Goal q)
                (route lookup envelope.to) _ r2.1 (record { holds = λ rs e. e })
                (λ rs r. outbound-Ends x.0 x.1 y.0 rs r1.1.store r2.1 w refl y.1 y.2 r)))

-- Deliver that returns no error has delivered the mail to everyone that the envelope names.
pub deliver-Delivered :
    (lookup : Address → Option Entry) (envelope : Envelope) (mail : Stream) (p : Post)
    → (deliver lookup envelope mail p).0 ≡ ok tt
    → Delivered lookup envelope mail p.store (deliver lookup envelope mail p).1.store
deliver-Delivered lookup envelope mail p h = (deliver-Ends lookup envelope mail p).holds tt h
