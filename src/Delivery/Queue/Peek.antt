-- ===== src/Delivery/Queue/Peek.antt =====
-- What PeekQueue and `next` of internal/delivery/queue.go find in the table "queue".
use briefmail.Base.{ℕ, ◌≡◌, ◌≢◌, refl, ap, Option, none, some, List, [], ◌∷◌, arith, Bytes}
use briefmail.Outcome.{Result, ok, err, no_rows}
use briefmail.Delivery.Queue.{next}
use briefmail.Delivery.Queue.Again.{due}
use briefmail.Model.Address.{Address, Normalizer}
use briefmail.Model.Address.Errors.{IsNormalizer, parse-error}
use briefmail.Storage.Cleaner.{Store}
use briefmail.Storage.Db.{
  Db, QueueElement, peek_queue, unmarshal_to, scan_queue, transact, run_tx, finish_tx,
}
use briefmail.Storage.Tables.{QueueRow, earliest}

earliest-none : (q : List QueueRow) → earliest q ≡ none → q ≡ []
unfolding earliest
earliest-none [] p = refl
earliest-none (r ∷ q) p = ground arith

module _ (n : Normalizer) (h : IsNormalizer n) where
  unmarshal-error : (vs : List Bytes) → unmarshal_to n vs ≢ err no_rows
  unfolding unmarshal_to
  unmarshal-error [] p = cc
  unmarshal-error (v ∷ vs) p = ground (arith, parse-error n h v, unmarshal-error vs)

  scan-error : (r : QueueRow) → scan_queue n r ≢ err no_rows
  scan-error r p = by_to (unmarshal_to n r.to) refl p
    where
      by_to : (x : Result (List Address)) → unmarshal_to n r.to ≡ x → scan_queue n r ≢ err no_rows
      by_to (ok to) q p = cc (rw q at p)
      by_to (err no_rows) q p = unmarshal-error r.to q
      by_to (err e) q p = cc (rw q at p)

-- What PeekQueue leaves: the table as it was; and it finds no row just if the table is empty.
pub record Peeked (d : Db) (r : Result QueueElement × Db) : Type 0 where
  pub queue : r.1.tables.queue ≡ d.tables.queue
  pub works : r.1.faults ≡ []
  pub nothing : r.0 ≡ err no_rows → d.tables.queue ≡ []

pub peek-Peeked :
    (n : Normalizer) (d : Db) → IsNormalizer n → d.faults ≡ [] → Peeked d (peek_queue n d)
unfolding peek_queue transact run_tx finish_tx
peek-Peeked n d h w = by_row (earliest d.tables.queue) refl
  where
    by_scan :
        (r : QueueRow) (x : Result QueueElement)
        → earliest d.tables.queue ≡ some r
        → scan_queue n r ≡ x
        → Peeked d (peek_queue n d)
    by_scan r (ok e) p q =
        rw (w, peek_queue, p, q) (record { queue = refl; works = refl; nothing = λ z. cc })
    by_scan r (err no_rows) p q = absurd (scan-error n h r q)
    by_scan r (err e) p q =
        rw (w, peek_queue, p, q) (record { queue = refl; works = refl; nothing = λ z. cc })

    by_row : (o : Option QueueRow) → earliest d.tables.queue ≡ o → Peeked d (peek_queue n d)
    by_row none p =
        rw (w, peek_queue, p)
          (record { queue = refl; works = refl; nothing = λ _. earliest-none d.tables.queue p })
    by_row (some r) p = by_scan r (scan_queue n r) p refl

pub next-db : (n : Normalizer) (now : ℕ) (s : Store) → (next n now s).1.db ≡ (peek_queue n s.db).1
unfolding next
next-db n now s = by_result (peek_queue n s.db).0 refl
  where
    by_result :
        (x : Result QueueElement)
        → (peek_queue n s.db).0 ≡ x
        → (next n now s).1.db ≡ (peek_queue n s.db).1
    by_result (ok e) p = rw (next, p) refl
    by_result (err no_rows) p = rw (next, p) refl
    by_result (err e) p = rw (next, p) refl

due-found : (now : ℕ) (e : QueueElement) → due now e ≢ (none, 0)
due-found now e p = ground (
  arith,
  ap (λ (x : Option QueueElement × ℕ). x.1) p,
  ap (λ (x : Option QueueElement × ℕ). x.0) p,
)

-- `next` finds nothing to do or to wait for just if the table is empty
pub next-nothing :
    (n : Normalizer) (now : ℕ) (s : Store)
    → IsNormalizer n
    → s.db.faults ≡ []
    → (next n now s).0 ≡ ok (none, 0)
    → s.db.tables.queue ≡ []
unfolding next
next-nothing n now s h w q = by_result (peek_queue n s.db).0 refl
  where
    the_pair : {x y : Option QueueElement × ℕ} → ok x ≡ ok y → x ≡ y
    the_pair z = cc

    by_result : (x : Result QueueElement) → (peek_queue n s.db).0 ≡ x → s.db.tables.queue ≡ []
    by_result (ok e) p = absurd (due-found now e (the_pair (rw (next, p) at q)))
    by_result (err no_rows) p = (peek-Peeked n s.db h w).nothing p
    by_result (err e) p = cc (rw (next, p) at q)
