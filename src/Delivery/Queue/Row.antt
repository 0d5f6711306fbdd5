-- ===== src/Delivery/Queue/Row.antt =====
-- What an attempt leaves in the table "queue": the end of `do` in internal/delivery/queue.go.
use briefmail.Base.{
  ℕ, suc, ◌+◌, ◌≤◌, ◌<◌, ◌≡◌, ◌≢◌, refl, ◌⊎◌, inl, inr, true, false, not, List, [], ◌∷◌, ◌++◌, map,
  ◌==◌,
}
use briefmail.Delivery.Queue.{Outcomes, is_empty}
use briefmail.Model.Address.{Address, to_string}
use briefmail.Storage.Db.{QueueElement}
use briefmail.Storage.Tables.{QueueRow, rows}

-- the rows of a mail, and those of the others
abbrev pub own : ℕ → List QueueRow → List QueueRow
own mail = rows (λ (r : QueueRow). r.mail == mail)

abbrev pub others : ℕ → List QueueRow → List QueueRow
others mail = rows (λ (r : QueueRow). not (r.mail == mail))

-- a row after an attempt that some recipients are left of
abbrev pub postponed : ℕ → List Address → QueueRow → QueueRow
postponed date to r = record r { date = date; attempts = suc r.attempts; to = map to_string to }

-- How an attempt ends, for the table `before` and `after` it.
pub data Settled (now : ℕ) (elem : QueueElement) (o : Outcomes) (before after : List QueueRow)
    : Type 0 where
  -- the row waits for the next attempt, for the recipients that are left
  retried :
      (date : ℕ)
      → o.pending ≢ []
      → suc elem.attempts < 30
      → now + 600 ≤ date
      → date ≤ now + 3600
      → own elem.mail_id after ≡ map (postponed date o.pending) (own elem.mail_id before)
      → others elem.mail_id after ≡ others elem.mail_id before
      → Settled now elem o before after
  -- everybody is served, and the row is gone
  served :
      o.pending ≡ []
      → o.undeliverable ≡ []
      → own elem.mail_id after ≡ []
      → others elem.mail_id after ≡ others elem.mail_id before
      → Settled now elem o before after
  -- the table stays as it is
  stays :
      (o.undeliverable ≢ [] × (o.pending ≡ [])) ⊎ (o.pending ≢ [] × (30 ≤ suc elem.attempts))
      → after ≡ before
      → Settled now elem o before after

pub empty-cases :
    (as' : List Address)
    → ((as' ≡ []) × (is_empty as' ≡ true)) ⊎ (as' ≢ [] × (is_empty as' ≡ false))
empty-cases [] = inl (refl, refl)
empty-cases (a ∷ as') = inr (λ p. cc, refl)

pub append-right_nil : {A : Type 0} (xs ys : List A) → xs ++ ys ≡ [] → ys ≡ []
append-right_nil [] ys p = p
append-right_nil (x ∷ xs) ys p = cc
