-- ===== src/Delivery/Queue/Sorted.antt =====
-- The lists that `do` of internal/delivery/queue.go fills.
use mathlib.Core.List.{Perm}
use mathlib.Core.List.Perm
use briefmail.Base.{◌≡◌, refl, sym, subst, List, [], ◌∷◌, ◌++◌, append_assoc, append-nil, Bytes}
use briefmail.Outcome.{Result, ok, err}
use briefmail.Delivery.Client.{Client, connect, send}
use briefmail.Delivery.Client.Sorted.{
  three, three-append, three-last, sorted, send-sorted, connect-sorted,
}
use briefmail.Delivery.Queue.{
  Groups, QueueConfig, Outcomes, Job, no_outcomes, addresses_by_domain, send_group, deliver_group,
  deliver_groups,
}
use briefmail.Delivery.Queue.Groups.{members, addresses_by_domain-IsGrouped}
use briefmail.Model.Address.{Address}
use briefmail.Storage.Blobs
use briefmail.Storage.Cleaner.{on_blobs}
use briefmail.Storage.Db.{Mail}
use briefmail.Stream.{Stream}

-- all the recipients in the lists
abbrev pub listed : Outcomes → List Address
listed o = three o.delivered o.undeliverable o.pending

-- what a round makes of the lists
record Adds {W : Type 0} (o : Outcomes) (as' : List Address) (r : Outcomes × Job W) : Type 0 where
  added : Perm (listed r.0) (listed o ++ as')

module _ {W : Type 0} (cfg : QueueConfig W) where
  postponed :
      (o : Outcomes) (as' : List Address) (j : Job W)
      → Adds o as' (record o { pending = o.pending ++ as' }, j)
  postponed o as' j = record {
    added = rw (three-last o.delivered o.undeliverable o.pending as') (Perm.refl _);
  }

  send_group-Adds :
      (mail : Mail) (as' : List Address) (c : Client) (o : Outcomes) (j : Job W)
      → sorted c ≡ []
      → Adds o as' (send_group cfg mail as' c o j)
  unfolding send_group
  send_group-Adds mail as' c o j fresh =
      by_body (on_blobs (Blobs.read_offset mail.id mail.offset) j.store).0 refl
    where
      by_send :
          (body : Stream) (x : Result Client)
          → (on_blobs (Blobs.read_offset mail.id mail.offset) j.store).0 ≡ ok body
          → (send cfg.network body cfg.hostname mail.from as' c j.net).0 ≡ x
          → Adds o as' (send_group cfg mail as' c o j)
      by_send body (err e) p q = rw (p, q, send_group) (postponed o as' _)
      by_send body (ok c') p q =
          rw (p, q, send_group)
            (record {
              added =
                  Perm.trans
                    (three-append o.delivered o.undeliverable o.pending c'.delivered
                      c'.undeliverable c'.pending)
                    (Perm.append_left (listed o) (
                      subst (λ l. Perm (sorted c') (l ++ as')) fresh
                        (send-sorted cfg.network body cfg.hostname mail.from as' c c' j.net q)));
            })

      by_body :
          (x : Result Stream)
          → (on_blobs (Blobs.read_offset mail.id mail.offset) j.store).0 ≡ x
          → Adds o as' (send_group cfg mail as' c o j)
      by_body (err e) p = rw (p, send_group) (postponed o as' _)
      by_body (ok body) p =
          by_send body (send cfg.network body cfg.hostname mail.from as' c j.net).0 p refl

  deliver_group-Adds :
      (mail : Mail) (g : Bytes × List Address) (o : Outcomes) (j : Job W)
      → Adds o g.1 (deliver_group cfg mail g o j)
  unfolding deliver_group
  deliver_group-Adds mail (domain, as') o j = by_connect (connect cfg.network domain j.net).0 refl
    where
      by_connect :
          (x : Result Client)
          → (connect cfg.network domain j.net).0 ≡ x
          → Adds o as' (deliver_group cfg mail (domain, as') o j)
      by_connect (err e) p = rw (p, deliver_group) (postponed o as' _)
      by_connect (ok c) p =
          rw (p, deliver_group)
            (send_group-Adds mail as' c o
              (record j { net = (connect cfg.network domain j.net).1; opened = c ∷ j.opened })
              (connect-sorted cfg.network domain j.net c p))

  deliver_groups-Adds :
      (mail : Mail) (gs : Groups) (o : Outcomes) (j : Job W)
      → Perm (listed (deliver_groups cfg mail gs o j).0) (listed o ++ members gs)
  unfolding deliver_groups members
  deliver_groups-Adds mail [] o j = rw (append-nil (listed o)) (Perm.refl _)
  deliver_groups-Adds mail (g ∷ gs) o j =
      let r = deliver_group cfg mail g o j in
      Perm.trans (deliver_groups-Adds mail gs r.0 r.1) (
        rw (sym (append_assoc (listed o) g.1 (members gs)))
          (Perm.append_right (members gs) (deliver_group-Adds mail g o j).added))

members-perm : (as' : List Address) → Perm (members (addresses_by_domain as')) as'
members-perm as' = (addresses_by_domain-IsGrouped as').same

-- An attempt to deliver to some recipients, in whatever order the domains are gone through, puts
-- each of them, as often as it is given, into exactly one of the three lists of those delivered,
-- undeliverable and pending, whichever calls fail.
pub deliver_groups-listed :
    {W : Type 0} (cfg : QueueConfig W) (mail : Mail) (to : List Address) (j : Job W)
    → ((gs : Groups) → Perm (members (cfg.ranged gs)) (members gs))
    → Perm
        (listed (deliver_groups cfg mail (cfg.ranged (addresses_by_domain to)) no_outcomes j).0)
        to
deliver_groups-listed cfg mail to j order =
    Perm.trans (deliver_groups-Adds cfg mail (cfg.ranged (addresses_by_domain to)) no_outcomes j)
      (Perm.trans (order (addresses_by_domain to)) (members-perm to))
