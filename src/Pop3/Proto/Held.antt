-- ===== src/Pop3/Proto/Held.antt =====
-- The lock that a session of internal/pop3 holds.
use briefmail.Base.{
  ℕ, ◌≡◌, refl, sym, ap, ◌∙◌, arith, Bool, true, false, inl, inr, Bool-cases, [], ◌==◌,
}
use briefmail.Pop3.Handlers.{in_transaction}
use briefmail.Pop3.Handlers.Quiet.{Quiet}
use briefmail.Pop3.Handlers.Effect.{Effect, calm, opened, leaked}
use briefmail.Pop3.Proto.{leave}
use briefmail.Pop3.Session.{Locks, set_lock, unlock, Session}

-- The locks of `s` are `l`, and with them the lock of the mailbox that a transaction has open.
pub data Holds (l : ℕ → Bool) (s : Session) : Type 0 where
  outside : in_transaction s.state ≡ false → s.locks.entries ≡ l → Holds l s
  inside :
      in_transaction s.state ≡ true
      → l s.mailbox.id ≡ false
      → s.locks.entries ≡ set_lock l s.mailbox.id true
      → Holds l s

Quiet-Holds : {l : ℕ → Bool} {s t : Session} → Quiet s t → Holds l s → Holds l t
Quiet-Holds q (outside out same) =
    outside (q.stage_is ∙ out) (ap (λ (x : Locks). x.entries) q.locks_are ∙ same)
Quiet-Holds {l} q (inside in' free taken) = inside (q.stage_is ∙ in') (ap l q.id_is ∙ free) (
    ap (λ (x : Locks). x.entries) q.locks_are ∙ (taken ∙ ap (λ i. set_lock l i true) (sym q.id_is)))

-- The mailboxes are locked as the session has it, and the database does not fail.
pub record Sound (l : ℕ → Bool) (s : Session) : Type 0 where
  pub holds : Holds l s
  pub works : s.store.db.faults ≡ []

pub Quiet-Sound : {l : ℕ → Bool} {s t : Session} → Quiet s t → Sound l s → Sound l t
Quiet-Sound q h = record { holds = Quiet-Holds q h.holds; works = q.works h.works }

open_now :
    {l : ℕ → Bool} {s t : Session} (id : ℕ)
    → in_transaction s.state ≡ false
    → s.locks.entries id ≡ false
    → t.locks.entries ≡ set_lock s.locks.entries id true
    → in_transaction t.state ≡ true
    → t.mailbox.id ≡ id
    → Holds l s
    → Holds l t
open_now {l} id out free taken in' is (outside _ same) =
    inside in' (ap l is ∙ (sym (ap (λ (f : ℕ → Bool). f id) same) ∙ free)) (
      taken
      ∙ (ap (λ (f : ℕ → Bool). set_lock f id true) same ∙ ap (λ i. set_lock l i true) (sym is)))
open_now id out free taken in' is (inside q _ _) = cc

pub Effect-Sound : {l : ℕ → Bool} {s t : Session} → Effect s t → Sound l s → Sound l t
Effect-Sound (calm q) h = Quiet-Sound q h
Effect-Sound (opened id out free taken reader in' is works) h = record {
  holds = open_now id out free taken in' is h.holds;
  works = works h.works;
}
Effect-Sound (leaked id out free taken reader out' broken) h = absurd (broken h.works)

pub Effect-reader : {s t : Session} → Effect s t → t.conn.reader ≡ s.conn.reader
Effect-reader (calm q) = q.reader_is
Effect-reader (opened id out free taken reader in' is works) = reader
Effect-reader (leaked id out free taken reader out' broken) = reader

unlocked : (l : ℕ → Bool) (id k : ℕ) → l id ≡ false → set_lock (set_lock l id true) id false k ≡ l k
unlocked l id k free = elim (Bool-cases (id == k)) [
  | inl same ↦ rw same (sym free ∙ ap l (ground (arith, same)))
  | inr other ↦ rw other refl
]

-- Giving the lock back leaves the locks as they were.
pub leave-locks : (l : ℕ → Bool) (s : Session) (k : ℕ) → Holds l s → (leave s).locks.entries k ≡ l k
unfolding leave unlock
leave-locks l s k (outside out same) = rw (out, leave) (ap (λ (f : ℕ → Bool). f k) same)
leave-locks l s k (inside in' free taken) = rw (in', leave, taken) (unlocked l s.mailbox.id k free)
