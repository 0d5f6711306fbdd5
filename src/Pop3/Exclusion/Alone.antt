-- ===== src/Pop3/Exclusion/Alone.antt =====
-- The mailboxes that the sessions of internal/pop3 have open at a time.
use mathlib.Core.Option.{none-ne-some}
use briefmail.Base.{
  ℕ, ◌≡◌, sym, ap, subst, ◌∙◌, inl, inr, arith, Bool, true, false, Bool-cases, none, some, ◌==◌,
}
use briefmail.Pop3.Handlers.{in_transaction}
use briefmail.Pop3.Proto.{leave}
use briefmail.Pop3.Session.{unlock, Config, Session}
use briefmail.Pop3.Exclusion.{
  System, set_session, within, absorb, Step, starts, serves, ends, elsewhere, Reach, here, further,
}
use briefmail.Pop3.Exclusion.Grip.{
  Exclusive, Grip, same, took, round-Grip, Found, stage, box, set-cases, found, set_lock-keeps,
  set_lock_self,
}

module _ {sys : System} (h : Exclusive sys) (i : ℕ) (s : Session)
    (at : sys.sessions i ≡ some s) where
  Grip-keeps :
      {t : Session}
      → Grip (within sys s) t
      → (k : ℕ) → sys.locks.entries k ≡ true
      → t.locks.entries k ≡ true
  Grip-keeps (same locks stage_is id_is) k p = ap (λ (l : ℕ → Bool). l k) locks ∙ p
  Grip-keeps (took id free taken is) k p =
      ap (λ (l : ℕ → Bool). l k) taken ∙ set_lock-keeps sys.locks.entries id k p

  Grip-mine :
      {t : Session}
      → Grip (within sys s) t
      → in_transaction t.state ≡ true
      → t.locks.entries t.mailbox.id ≡ true
  Grip-mine (same locks stage_is id_is) p = rw (locks, id_is) (h.locked i s at (sym stage_is ∙ p))
  Grip-mine (took id free taken is) p = rw (taken, is p) (set_lock_self sys.locks.entries id true)

  Grip-alone :
      {t : Session} (j : ℕ) (u : Session)
      → Grip (within sys s) t
      → in_transaction t.state ≡ true
      → sys.sessions j ≡ some u
      → in_transaction u.state ≡ true
      → t.mailbox.id ≡ u.mailbox.id
      → i ≡ j
  Grip-alone j u (same locks stage_is id_is) p at' q eq =
      h.alone i j s u at at' (sym stage_is ∙ p) q (sym id_is ∙ eq)
  Grip-alone j u (took id free taken is) p at' q eq =
      absurd (clash free (ap sys.locks.entries (sym (is p) ∙ eq)) (h.locked j u at' q))
    where
      clash : {a b : Bool} → a ≡ false → a ≡ b → b ≡ true → ⊥
      clash p q r = cc

  serves-alone :
      {t : Session} (a b : ℕ) (u v : Session)
      → Grip (within sys s) t
      → Found i t sys.sessions a u
      → Found i t sys.sessions b v
      → in_transaction u.state ≡ true
      → in_transaction v.state ≡ true
      → u.mailbox.id ≡ v.mailbox.id
      → a ≡ b
  serves-alone a b u v g (inl (ia, tu)) (inl (ib, tv)) up vp eq = sym ia ∙ ib
  serves-alone a b u v g (inl (ia, tu)) (inr (_, old)) up vp eq =
      sym ia ∙ Grip-alone b v g (ap stage tu ∙ up) old vp (ap box tu ∙ eq)
  serves-alone a b u v g (inr (_, old)) (inl (ib, tv)) up vp eq =
      sym (Grip-alone a u g (ap stage tv ∙ vp) old up (ap box tv ∙ sym eq)) ∙ ib
  serves-alone a b u v g (inr (_, old)) (inr (_, old')) up vp eq = h.alone a b u v old old' up vp eq

  serves-Exclusive : {t : Session} → Grip (within sys s) t → Exclusive (absorb i (some t) t sys)
  serves-Exclusive {t} g = record {
    locked = λ k u p q. locked_at k u (found i t sys.sessions k u p) q;
    alone = λ a b u v p q.
        serves-alone a b u v g (found i t sys.sessions a u p) (found i t sys.sessions b v q);
  }
    where
      locked_at :
          (k : ℕ) (u : Session)
          → Found i t sys.sessions k u
          → in_transaction u.state ≡ true
          → t.locks.entries u.mailbox.id ≡ true
      locked_at k u (inl (_, is)) q =
          subst (λ (x : Session). t.locks.entries x.mailbox.id ≡ true) is
            (Grip-mine g (ap stage is ∙ q))
      locked_at k u (inr (_, old)) q = Grip-keeps g u.mailbox.id (h.locked k u old q)

  apart : {a b : ℕ} → a ≡ b → (a == b) ≡ false → ⊥
  apart p q = ground arith

  -- giving the lock back takes it from nobody else
  leave-keeps :
      (k : ℕ) (u : Session)
      → (i == k) ≡ false
      → sys.sessions k ≡ some u
      → in_transaction u.state ≡ true
      → (leave (within sys s)).locks.entries u.mailbox.id ≡ true
  unfolding leave unlock
  leave-keeps k u other old q = elim (Bool-cases (in_transaction s.state)) [
    | inr outside ↦ rw (outside, leave) (h.locked k u old q)
    | inl inside ↦ elim (Bool-cases (s.mailbox.id == u.mailbox.id)) [
      | inl is ↦ absurd (apart (h.alone i k s u at old inside q (ground (arith, is))) other)
      | inr is_not ↦ rw (inside, leave, is_not) (h.locked k u old q)
    ]
  ]

  ends-Exclusive : Exclusive (absorb i none (leave (within sys s)) sys)
  ends-Exclusive = record {
    locked = λ k u p q. let (other, old) = others k u p in leave-keeps k u other old q;
    alone = λ a b u v p q. h.alone a b u v (others a u p).1 (others b v q).1;
  }
    where
      others :
          (k : ℕ) (u : Session)
          → set_session i none sys.sessions k ≡ some u
          → ((i == k) ≡ false) × (sys.sessions k ≡ some u)
      others k u p = elim (set-cases i none sys.sessions k u p) [
        | inl (_, q) ↦ absurd (none-ne-some u q)
        | inr before ↦ before
      ]

starts-Exclusive :
    {sys : System} (i : ℕ) (s : Session)
    → in_transaction s.state ≡ false
    → Exclusive sys
    → Exclusive (record sys { sessions = set_session i (some s) sys.sessions })
starts-Exclusive {sys} i s out h = record {
  locked = λ k u p q. h.locked k u (old k u p q) q;
  alone = λ a b u v p q up vp. h.alone a b u v (old a u p up) (old b v q vp) up vp;
}
  where
    clash : {a b : Bool} → b ≡ true → a ≡ b → a ≡ false → ⊥
    clash p q r = cc

    old :
        (k : ℕ) (u : Session)
        → set_session i (some s) sys.sessions k ≡ some u
        → in_transaction u.state ≡ true
        → sys.sessions k ≡ some u
    old k u p q = elim (found i s sys.sessions k u p) [
      | inl (_, is) ↦ absurd (clash q (ap stage is) out)
      | inr (_, before) ↦ before
    ]

Step-Exclusive :
    {cfg : Config} {sys sys' : System} → Step cfg sys sys' → Exclusive sys → Exclusive sys'
Step-Exclusive (starts i s _ out) h = starts-Exclusive i s out h
Step-Exclusive {cfg} {sys} (serves i s at) h =
    serves-Exclusive h i s at (round-Grip cfg (within sys s))
Step-Exclusive (ends i s at) h = ends-Exclusive h i s at
Step-Exclusive (elsewhere store) h = record { locked = h.locked; alone = h.alone }

Reach-Exclusive :
    {cfg : Config} {start sys : System} → Reach cfg start sys → Exclusive start → Exclusive sys
Reach-Exclusive here h = h
Reach-Exclusive (further before step) h = Step-Exclusive step (Reach-Exclusive before h)

-- Of all the sessions that are served at a time, from a start with none, no two are in a transaction
-- of the same mailbox, however their rounds, their ends and the work on the store interleave.
pub Reach-alone :
    (cfg : Config) (start sys : System) (i j : ℕ) (s t : Session)
    → ((k : ℕ) → start.sessions k ≡ none)
    → Reach cfg start sys
    → sys.sessions i ≡ some s
    → sys.sessions j ≡ some t
    → in_transaction s.state ≡ true
    → in_transaction t.state ≡ true
    → s.mailbox.id ≡ t.mailbox.id
    → i ≡ j
Reach-alone cfg start sys i j s t empty path =
    (Reach-Exclusive path (record {
      locked = λ k u p. absurd (none-ne-some u (sym (empty k) ∙ p));
      alone = λ a b u v p. absurd (none-ne-some u (sym (empty a) ∙ p));
    })).alone
      i j s t
