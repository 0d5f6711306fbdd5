-- ===== src/Delivery/Queue/Again.antt =====
-- Which element `next` of internal/delivery/queue.go returns after an attempt.
use briefmail.Base.{
  ℕ, suc, ◌-◌, ◌≤◌, ◌≡◌, ◌≢◌, refl, ap, ◌⊎◌, inl, inr, true, false, Bool-cases, Option, none, some,
  [], ◌++◌, ltb, if◌then◌else◌, arith,
}
use briefmail.Outcome.{Result, ok, err}
use briefmail.Delivery.Queue.{
  Outcomes, is_empty, schedule_attempt, next, settle_pending, settle_done, settle,
}
use briefmail.Delivery.Queue.Row.{empty-cases, append-right_nil}
use briefmail.Delivery.Queue.Schedule.{schedule_attempt-IsScheduled}
use briefmail.Model.Address.{Normalizer}
use briefmail.Storage.Cleaner.{Store, on_db}
use briefmail.Storage.Db.{QueueElement, peek_queue}

-- what the date makes of an element
abbrev pub due : ℕ → QueueElement → Option QueueElement × ℕ
due now e = if ltb now e.date then (none, e.date - now) else (some e, 0)

due-later :
    (now later : ℕ) (e elem : QueueElement)
    → now ≤ later
    → due now e ≡ (some elem, 0)
    → due later e ≡ (some elem, 0)
due-later now later e elem le p = elim (Bool-cases (ltb now e.date)) [
  | inl early ↦ cc (rw early at p)
  | inr ready ↦ rw (past e.date ready) (rw ready at p)
]
  where
    past : (date : ℕ) → ltb now date ≡ false → ltb later date ≡ false
    past date q = ground arith

next-later :
    (n : Normalizer) (now later : ℕ) (s : Store) (elem : QueueElement)
    → now ≤ later
    → (next n now s).0 ≡ ok (some elem, 0)
    → (next n later s).0 ≡ ok (some elem, 0)
unfolding next
next-later n now later s elem le p = by_row (on_db (peek_queue n) s).0 refl
  where
    the_pair : {x y : Option QueueElement × ℕ} → ok x ≡ ok y → x ≡ y
    the_pair q = cc

    by_row :
        (r : Result QueueElement)
        → (on_db (peek_queue n) s).0 ≡ r
        → (next n later s).0 ≡ ok (some elem, 0)
    by_row (ok e) q =
        rw (q, next)
          (ap (λ (x : Option QueueElement × ℕ). ok x)
            (due-later now later e elem le (the_pair (rw (q, next) at p))))
    by_row (err e) q = cc (rw (q, next) at p)

-- An attempt that ends with recipients refused for good and none left, or with some left after the
-- last attempt, changes nothing.
settle-same :
    (now : ℕ) (elem : QueueElement) (o : Outcomes) (s : Store)
    → ((o.undeliverable ≢ [] × (o.pending ≡ [])) ⊎ (o.pending ≢ [] × (30 ≤ suc elem.attempts)))
    → settle now elem o s ≡ s
unfolding settle settle_pending settle_done
settle-same now elem o s (inl (refused, none_left)) = elim (empty-cases o.undeliverable) [
  | inl (nobody, _) ↦ absurd (refused nobody)
  | inr (_, f) ↦
      rw (settle, settle_pending, ap is_empty none_left, settle_done, ap is_empty none_left, f) refl
]
settle-same now elem o s (inr (left, late)) =
    by_case (empty-cases o.pending) (Bool-cases (schedule_attempt now (suc elem.attempts)).0)
      (empty-cases (o.undeliverable ++ o.pending))
  where
    too_late : (schedule_attempt now (suc elem.attempts)).0 ≢ true
    too_late p =
        absurd
          (omega (arith, late, (schedule_attempt-IsScheduled now (suc elem.attempts)).tries.0 p))

    by_case :
        ((o.pending ≡ []) × (is_empty o.pending ≡ true))
          ⊎ (o.pending ≢ [] × (is_empty o.pending ≡ false))
        → ((schedule_attempt now (suc elem.attempts)).0 ≡ true)
          ⊎ ((schedule_attempt now (suc elem.attempts)).0 ≡ false)
        → (((o.undeliverable ++ o.pending) ≡ []) × (is_empty (o.undeliverable ++ o.pending) ≡ true))
          ⊎ ((o.undeliverable ++ o.pending) ≢ []
              × (is_empty (o.undeliverable ++ o.pending) ≡ false))
        → settle now elem o s ≡ s
    by_case (inl (nobody, _)) again all' = absurd (left nobody)
    by_case (inr (_, e)) (inl again) all' = absurd (too_late again)
    by_case (inr (_, e)) (inr last) (inl (nobody, _)) =
        absurd (left (append-right_nil o.undeliverable o.pending nobody))
    by_case (inr (_, e)) (inr last) (inr (_, f)) =
        rw (settle, settle_pending, e, last, settle_done, f) refl

-- After an attempt that ends with some recipients refused for good and none left, or with some left
-- at the last attempt, the same element is due again at once, with the same attempts and recipients,
-- and stays so at any later time: the row is neither deleted nor put off.
pub next-settle :
    (n : Normalizer) (now later : ℕ) (elem : QueueElement) (o : Outcomes) (s : Store)
    → ((o.undeliverable ≢ [] × (o.pending ≡ [])) ⊎ (o.pending ≢ [] × (30 ≤ suc elem.attempts)))
    → now ≤ later
    → (next n now s).0 ≡ ok (some elem, 0)
    → (next n later (settle now elem o s)).0 ≡ ok (some elem, 0)
next-settle n now later elem o s end' le p =
    rw (settle-same now elem o s end') (next-later n now later s elem le p)
