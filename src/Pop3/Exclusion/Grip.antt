-- ===== src/Pop3/Exclusion/Grip.antt =====
-- What a round of a session of internal/pop3 does to the locks that the sessions share.
use mathlib.Core.Option.{some-injective}
use briefmail.Base.{
  ℕ, ◌≡◌, refl, ap, ◌⊎◌, inl, inr, arith, Bool, true, false, Bool-cases, Option, some, Bytes, ◌==◌,
}
use briefmail.Outcome.{Result, ok, err}
use briefmail.Pop3.Handlers.{in_transaction}
use briefmail.Pop3.Handlers.Effect.{Effect, calm, opened, leaked}
use briefmail.Pop3.Proto.{verb_of, read, round}
use briefmail.Pop3.Proto.Effects.{dispatch-Effect}
use briefmail.Pop3.Session.{Locks, set_lock, parse, Config, Session}
use briefmail.Pop3.Exclusion.{System, set_session}

-- Whoever is in a transaction holds the lock of its mailbox, and holds it alone.
pub record Exclusive (sys : System) : Type 0 where
  pub locked :
      (i : ℕ) (s : Session)
      → sys.sessions i ≡ some s
      → in_transaction s.state ≡ true
      → sys.locks.entries s.mailbox.id ≡ true
  pub alone :
      (i j : ℕ) (s t : Session)
      → sys.sessions i ≡ some s
      → sys.sessions j ≡ some t
      → in_transaction s.state ≡ true
      → in_transaction t.state ≡ true
      → s.mailbox.id ≡ t.mailbox.id
      → i ≡ j

-- What a round does to the locks: nothing, or it takes one that was free.
pub data Grip (s t : Session) : Type 0 where
  same :
      t.locks.entries ≡ s.locks.entries
      → in_transaction t.state ≡ in_transaction s.state
      → t.mailbox.id ≡ s.mailbox.id
      → Grip s t
  took :
      (id : ℕ)
      → s.locks.entries id ≡ false
      → t.locks.entries ≡ set_lock s.locks.entries id true
      → (in_transaction t.state ≡ true → t.mailbox.id ≡ id)
      → Grip s t

Effect-Grip : {s t : Session} → Effect s t → Grip s t
Effect-Grip (calm q) = same (ap (λ (l : Locks). l.entries) q.locks_are) q.stage_is q.id_is
Effect-Grip (opened id out free taken reader inside is works) = took id free taken (λ _. is)
Effect-Grip (leaked id out free taken reader outside broken) = took id free taken (λ p. cc)

read-Grip : {t : Session} (s : Session) → Grip (read s).1 t → Grip s t
unfolding read
read-Grip s (same locks stage_is id_is) = same locks stage_is id_is
read-Grip s (took id free taken is) = took id free taken is

pub round-Grip : (cfg : Config) (s : Session) → Grip s (round cfg s).1
unfolding round
round-Grip cfg s = by_line (read s).0 refl
  where
    idle : Grip s (read s).1
    idle = read-Grip s (same refl refl refl)

    by_line : (r : Result Bytes) → (read s).0 ≡ r → Grip s (round cfg s).1
    by_line (err e) p = rw (p, round) idle
    by_line (ok line) p =
        rw (p, round)
          (read-Grip s
            (Effect-Grip (dispatch-Effect cfg (verb_of (parse line).head) (parse line) (read s).1)))

-- what the number `k` has after the session `i` has become `t`
abbrev pub Found : ℕ → Session → (ℕ → Option Session) → ℕ → Session → Type 0
Found i t sessions k u = ((i ≡ k) × (t ≡ u)) ⊎ (((i == k) ≡ false) × (sessions k ≡ some u))

abbrev pub stage : Session → Bool
stage s = in_transaction s.state

abbrev pub box : Session → ℕ
box s = s.mailbox.id

pub set-cases :
    (i : ℕ) (o : Option Session) (sessions : ℕ → Option Session) (k : ℕ) (s : Session)
    → set_session i o sessions k ≡ some s
    → ((i ≡ k) × (o ≡ some s)) ⊎ (((i == k) ≡ false) × (sessions k ≡ some s))
set-cases i o sessions k s p = elim (Bool-cases (i == k)) [
  | inl is ↦ inl (ground (arith, is), rw is at p)
  | inr is_not ↦ inr (is_not, rw is_not at p)
]

pub found :
    (i : ℕ) (t : Session) (sessions : ℕ → Option Session) (k : ℕ) (u : Session)
    → set_session i (some t) sessions k ≡ some u
    → Found i t sessions k u
found i t sessions k u p = elim (set-cases i (some t) sessions k u p) [
  | inl (is, q) ↦ inl (is, some-injective t u q)
  | inr q ↦ inr q
]

-- a lock that is held stays held
pub set_lock-keeps : (l : ℕ → Bool) (id k : ℕ) → l k ≡ true → set_lock l id true k ≡ true
set_lock-keeps l id k p = elim (Bool-cases (id == k)) [
  | inl is ↦ rw is refl
  | inr is_not ↦ rw is_not p
]

pub set_lock_self : (l : ℕ → Bool) (id : ℕ) (b : Bool) → set_lock l id b id ≡ b
set_lock_self l id b = ground arith
