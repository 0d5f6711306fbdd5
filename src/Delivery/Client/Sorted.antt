-- ===== src/Delivery/Client/Sorted.antt =====
-- Where (*client).send of internal/delivery/queue.go puts each recipient.
use mathlib.Core.List.{Perm, perm_middle, perm_append_comm}
use mathlib.Core.List.Perm
use briefmail.Base.{
  ℕ, ◌≡◌, refl, sym, ap, subst, ◌∙◌, Bool-cases, inl, inr, List, [], ◌∷◌, ◌++◌, append_assoc,
  append-nil, Bytes, ◌==◌,
}
use briefmail.Outcome.{Result, ok, err, Exec, continue}
use briefmail.Delivery.Client.{
  RcptReply, accepted, refused, failed, Network, Client, sort_reply, try_hosts, connect, rcpt_each,
  secure, copy_mail, send,
}
use briefmail.Dns.{Mx, query_mx}
use briefmail.Model.Address.{Address, to_string}
use briefmail.Stream.{Stream}

-- the lists of delivered, undeliverable and pending addresses as one
abbrev pub three : {A : Type 0} → List A → List A → List A → List A
three d u p = d ++ (u ++ p)

module _ {A : Type 0} where
  snoc : (a : A) (xs ys : List A) → Perm ((xs ++ (a ∷ [])) ++ ys) (a ∷ (xs ++ ys))
  snoc a xs ys = rw (append_assoc xs (a ∷ []) ys) (perm_middle xs ys)

  three-first : (a : A) (d u p : List A) → Perm (three (d ++ (a ∷ [])) u p) (a ∷ three d u p)
  three-first a d u p = snoc a d (u ++ p)

  three-second : (a : A) (d u p : List A) → Perm (three d (u ++ (a ∷ [])) p) (a ∷ three d u p)
  three-second a d u p = Perm.trans (Perm.append_left d (snoc a u p)) (perm_middle d (u ++ p))

  pub three-last : (d u p xs : List A) → three d u (p ++ xs) ≡ three d u p ++ xs
  three-last d u p xs = sym (append_assoc d (u ++ p) xs ∙ ap (λ l. d ++ l) (append_assoc u p xs))

  three-third : (a : A) (d u p : List A) → Perm (three d u (p ++ (a ∷ []))) (a ∷ three d u p)
  three-third a d u p = rw (three-last d u p (a ∷ [])) (perm_append_comm (three d u p) (a ∷ []))

  interchange : (a x b y : List A) → Perm ((a ++ x) ++ (b ++ y)) ((a ++ b) ++ (x ++ y))
  interchange a x b y =
      rw
        (
          append_assoc a x (b ++ y),
          append_assoc a b (x ++ y),
          sym (append_assoc x b y),
          sym (append_assoc b x y),
        )
        (Perm.append_left a (Perm.append_right y (perm_append_comm x b)))

  pub three-append :
      (d u p x y z : List A) → Perm (three (d ++ x) (u ++ y) (p ++ z)) (three d u p ++ three x y z)
  three-append d u p x y z =
      Perm.trans (Perm.append_left (d ++ x) (interchange u y p z))
        (interchange d x (u ++ p) (y ++ z))

-- the recipients that a client has sorted
abbrev pub sorted : Client → List Address
sorted c = three c.delivered c.undeliverable c.pending

sort_reply-sorted :
    (code : ℕ) (a : Address) (c : Client) → Perm (sorted (sort_reply code a c)) (a ∷ sorted c)
sort_reply-sorted code a c = elim (Bool-cases (code == 550)) [
  | inl unknown ↦ rw unknown (three-second a c.delivered c.undeliverable c.pending)
  | inr later ↦ rw later (three-third a c.delivered c.undeliverable c.pending)
]

module _ {W : Type 0} (n : Network W) where
  -- the next recipients, after one that has been sorted
  after :
      (as' : List Address) (a : Address) (c c' c'' : Client)
      → Perm (sorted c') (a ∷ sorted c)
      → Perm (sorted c'') (sorted c' ++ as')
      → Perm (sorted c'') (sorted c ++ (a ∷ as'))
  after as' a c c' c'' h k =
      Perm.trans k (Perm.trans (Perm.append_right as' h) (Perm.symm (perm_middle (sorted c) as')))

  rcpt_each-sorted :
      (as' : List Address) (c c' : Client) (w : W)
      → (rcpt_each n as' c w).0 ≡ ok c'
      → Perm (sorted c') (sorted c ++ as')
  unfolding rcpt_each
  rcpt_each-sorted [] c c' w p =
      rw (append-nil (sorted c))
        (subst (λ (x : Client). Perm (sorted x) (sorted c)) (same p) (Perm.refl _))
    where
      same : ok c ≡ ok c' → c ≡ c'
      same q = cc
  rcpt_each-sorted (a ∷ as') c c' w p =
      by_reply (n.rcpt c.client (to_string a) w).0 refl (λ x v. rcpt_each-sorted as' x c' v)
    where
      by_reply :
          (r : RcptReply)
          → (n.rcpt c.client (to_string a) w).0 ≡ r
          → ((x : Client) (v : W)
              → (rcpt_each n as' x v).0 ≡ ok c'
              → Perm (sorted c') (sorted x ++ as'))
          → Perm (sorted c') (sorted c ++ (a ∷ as'))
      by_reply accepted q next =
          let x = record c { delivered = c.delivered ++ (a ∷ []) } in
          after as' a c x c' (three-first a c.delivered c.undeliverable c.pending)
            (next x (n.rcpt c.client (to_string a) w).1 (rw (q, rcpt_each) at p))
      by_reply (refused code) q next =
          let x = sort_reply code a c in
          after as' a c x c' (sort_reply-sorted code a c)
            (next x (n.rcpt c.client (to_string a) w).1 (rw (q, rcpt_each) at p))
      by_reply (failed e) q next = cc (rw (q, rcpt_each) at p)

  -- A step that does not change the result of what follows it.
  then_ok :
      {A B : Type 0} (r : Result A) (f : A → Exec W B) (w : W) (b : B)
      → (continue r f w).0 ≡ ok b
      → (a : A) × (r ≡ ok a) × ((f a w).0 ≡ ok b)
  then_ok (ok a) f w b p = (a, refl, p)
  then_ok (err e) f w b p = cc

  -- When send returns without an error, it has put every recipient into just one of the lists.
  pub send-sorted :
      (r : Stream) (hostname : Bytes) (from : Address) (to : List Address) (c c' : Client) (w : W)
      → (send n r hostname from to c w).0 ≡ ok c'
      → Perm (sorted c') (sorted c ++ to)
  unfolding send
  send-sorted r hostname from to c c' w p =
      let h = n.hello c.client hostname w in
      let (_, _, p1) = then_ok h.0 _ h.1 c' p in
      let s = secure n c.client h.1 in
      let (_, _, p2) = then_ok s.0 _ s.1 c' p1 in
      let m = n.mail c.client (to_string from) s.1 in
      let (_, _, p3) = then_ok m.0 _ m.1 c' p2 in
      let x = rcpt_each n to c m.1 in
      let (c'', at, p4) = then_ok x.0 _ x.1 c' p3 in
      let d = n.data_cmd c.client x.1 in
      let (_, _, p5) = then_ok d.0 _ d.1 c' p4 in
      let y = copy_mail n c.client r d.1 in
      let (_, _, p6) = then_ok y.0 _ y.1 c' p5 in
      subst (λ (z : Client). Perm (sorted z) (sorted c ++ to)) (the_client p6)
        (rcpt_each-sorted to c c'' m.1 at)
    where
      the_client : {z : Client} → ok z ≡ ok c' → z ≡ c'
      the_client q = cc

  try_hosts-sorted :
      (rs : List Mx) (w : W) (c : Client) → (try_hosts n rs w).0 ≡ ok c → sorted c ≡ []
  unfolding try_hosts
  try_hosts-sorted [] w c p = cc
  try_hosts-sorted (r ∷ rs) w c p = by_dial (n.dial r.mx w).0 refl (λ v. try_hosts-sorted rs v c)
    where
      fresh : {z : Client} → ok z ≡ ok c → sorted z ≡ [] → sorted c ≡ []
      fresh q h = cc

      by_client :
          (conn : ℕ) (x : Result ℕ)
          → (n.dial r.mx w).0 ≡ ok conn
          → (n.new_client conn r.mx (n.dial r.mx w).1).0 ≡ x
          → ((v : W) → (try_hosts n rs v).0 ≡ ok c → sorted c ≡ [])
          → sorted c ≡ []
      by_client conn (err e) q q' next =
          next (n.close_conn conn (n.new_client conn r.mx (n.dial r.mx w).1).1)
            (rw (q, q', try_hosts) at p)
      by_client conn (ok client) q q' next = fresh (rw (q, q', try_hosts) at p) refl

      by_dial :
          (x : Result ℕ)
          → (n.dial r.mx w).0 ≡ x
          → ((v : W) → (try_hosts n rs v).0 ≡ ok c → sorted c ≡ [])
          → sorted c ≡ []
      by_dial (err e) q next = next (n.dial r.mx w).1 (rw (q, try_hosts) at p)
      by_dial (ok conn) q next =
          by_client conn (n.new_client conn r.mx (n.dial r.mx w).1).0 q refl next

  pub connect-sorted :
      (domain : Bytes) (w : W) (c : Client) → (connect n domain w).0 ≡ ok c → sorted c ≡ []
  unfolding connect
  connect-sorted domain w c p =
      let r = query_mx n.resolver domain w in
      let (records, _, q) = then_ok r.0 _ r.1 c p in
      try_hosts-sorted (n.by_preference records) r.1 c q
