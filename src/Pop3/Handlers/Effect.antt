-- ===== src/Pop3/Handlers/Effect.antt =====
-- What PASS, and with it any handler, does to the locks.
use briefmail.Base.{
  ℕ, ◌≡◌, ◌≢◌, refl, sym, ap, ◌∙◌, Bool, true, false, ◌⊎◌, inl, inr, Bool-cases, List, [], ◌∷◌,
  Bytes, codes,
}
use briefmail.Outcome.{Error, Result, ok, err, continue}
use briefmail.Pop3.Session.{
  Locks, set_lock, lock, Command, args, positive, negative, SessionState, s_init, s_user,
  s_transaction, Config, Session, on_session_db,
}
use briefmail.Pop3.Handlers.{in_transaction, in_user, open_mailbox, lock_mailbox, log_in, pass}
use briefmail.Pop3.Handlers.Quiet.{Quiet, Calm, still, Quiet-trans, send-Calm, on_store-Calm}
use briefmail.Storage.Db.Transact.{transact-works}
use briefmail.Storage.Cleaner.{on_db}
use briefmail.Storage.Db
use briefmail.Storage.Db.{Db, authenticate, transact, run_tx, finish_tx}

-- What a handler does to the locks: nothing; or, outside a transaction, it takes a lock that was
-- free. With it the session enters the transaction of that mailbox, unless the database fails.
pub data Effect (s s' : Session) : Type 0 where
  calm : Quiet s s' → Effect s s'
  opened :
      (id : ℕ)
      → in_transaction s.state ≡ false
      → s.locks.entries id ≡ false
      → s'.locks.entries ≡ set_lock s.locks.entries id true
      → s'.conn.reader ≡ s.conn.reader
      → in_transaction s'.state ≡ true
      → s'.mailbox.id ≡ id
      → (s.store.db.faults ≡ [] → s'.store.db.faults ≡ [])
      → Effect s s'
  leaked :
      (id : ℕ)
      → in_transaction s.state ≡ false
      → s.locks.entries id ≡ false
      → s'.locks.entries ≡ set_lock s.locks.entries id true
      → s'.conn.reader ≡ s.conn.reader
      → in_transaction s'.state ≡ false
      → s.store.db.faults ≢ []
      → Effect s s'

pub after_quiet : {s t u : Session} → Quiet s t → Effect t u → Effect s u
after_quiet h (calm k) = calm (Quiet-trans h k)
after_quiet h (opened id out free taken reader inside is works) =
    opened id (sym h.stage_is ∙ out) (sym (ap (λ (l : Locks). l.entries id) h.locks_are) ∙ free)
      (taken ∙ ap (λ (l : Locks). set_lock l.entries id true) h.locks_are) (reader ∙ h.reader_is)
      inside is (λ w. works (h.works w))
after_quiet h (leaked id out free taken reader outside broken) =
    leaked id (sym h.stage_is ∙ out) (sym (ap (λ (l : Locks). l.entries id) h.locks_are) ∙ free)
      (taken ∙ ap (λ (l : Locks). set_lock l.entries id true) h.locks_are) (reader ∙ h.reader_is)
      outside (λ w. broken (h.works w))

pub before_quiet : {s t u : Session} → Effect s t → Quiet t u → Effect s u
before_quiet (calm h) k = calm (Quiet-trans h k)
before_quiet (opened id out free taken reader inside is works) k =
    opened id out free (ap (λ (l : Locks). l.entries) k.locks_are ∙ taken) (k.reader_is ∙ reader)
      (k.stage_is ∙ inside) (k.id_is ∙ is) (λ w. k.works (works w))
before_quiet (leaked id out free taken reader outside broken) k =
    leaked id out free (ap (λ (l : Locks). l.entries) k.locks_are ∙ taken) (k.reader_is ∙ reader)
      (k.stage_is ∙ outside) broken

record Affects {A : Type 0} (s : Session) (p : Result A × Session) : Type 0 where
  effect : Effect s p.1

quiet_first : {A : Type 0} (s : Session) (p : Result A × Session) → Calm s p → Affects s p
quiet_first s p h = record { effect = calm h.quiet }

-- A database that does not fail lists the entries of a mailbox.
entries-err : (box : ℕ) (d : Db) (e : Error) → d.faults ≡ [] → (Db.entries box d).0 ≢ err e
unfolding Db.entries transact run_tx finish_tx
entries-err box d e w p = cc (rw w at p)

entries-works : (box : ℕ) (d : Db) → d.faults ≡ [] → (Db.entries box d).1.faults ≡ []
unfolding Db.entries
entries-works box d w = transact-works _ d w

authenticate-works :
    (cfg : Config) (name secret : Bytes) (d : Db)
    → d.faults ≡ []
    → (authenticate cfg.bcrypt name secret d).1.faults ≡ []
unfolding authenticate
authenticate-works cfg name secret d w = transact-works _ d w

-- the session in a transaction of the mailbox
abbrev opened_session : ℕ → List Db.Entry × ℕ → Session → Session
opened_session id found s = record s {
  mailbox = record s.mailbox { id = id; marks = []; entries = found.0; size = found.1 };
  state = s_transaction;
}

open_mailbox-Affects :
    (id : ℕ) (s : Session)
    → in_transaction s.state ≡ false
    → s.locks.entries id ≡ false
    → Affects s (
        open_mailbox id
          (record s { locks = record { entries = set_lock s.locks.entries id true } }))
unfolding open_mailbox
open_mailbox-Affects id s out free = by_result (Db.entries id s.store.db).0 refl
  where
    by_result :
        (r : Result (List Db.Entry × ℕ))
        → (Db.entries id s.store.db).0 ≡ r
        → Affects s (
            open_mailbox id
              (record s { locks = record { entries = set_lock s.locks.entries id true } }))
    by_result (err e) p =
        rw (open_mailbox, p)
          (record {
            effect = leaked id out free refl refl out (λ w. entries-err id s.store.db e w p);
          })
    by_result (ok found) p =
        let t = opened_session id found (record s {
          locks = record { entries = set_lock s.locks.entries id true };
          store = record s.store { db = (Db.entries id s.store.db).1 };
        }) in
        rw (open_mailbox, p)
          (record {
            effect =
                before_quiet
                  (opened id out free refl refl refl refl (λ w. entries-works id s.store.db w))
                  (send-Calm (positive (codes "I knew it was you!")) t).quiet;
          })

lock_mailbox-Affects :
    (found : ℕ × Bool) (s : Session)
    → in_transaction s.state ≡ false
    → Affects s (lock_mailbox found s)
unfolding lock_mailbox lock
lock_mailbox-Affects (id, false) s out = quiet_first s _ (send-Calm (negative (codes "nice try")) s)
lock_mailbox-Affects (id, true) s out = elim (Bool-cases (s.locks.entries id)) [
  | inl held ↦
      rw (lock_mailbox, lock, held)
        (quiet_first s _ (send-Calm (negative (codes "there is two of you?")) s))
  | inr free ↦ rw (lock_mailbox, lock, free) (open_mailbox-Affects id s out free)
]

log_in-Affects :
    (cfg : Config) (ws : List Bytes) (s : Session)
    → in_transaction s.state ≡ false
    → Affects s (log_in cfg ws s)
unfolding log_in
log_in-Affects cfg (secret ∷ []) s out =
    let r = on_session_db (authenticate cfg.bcrypt s.name secret) s in
    found_user r.0 r.1
      (on_store-Calm (on_db (authenticate cfg.bcrypt s.name secret))
        (λ x w. authenticate-works cfg s.name secret x.db w) s).quiet
  where
    found_user :
        (r : Result (ℕ × Bool)) (t : Session) → Quiet s t → Affects s (continue r lock_mailbox t)
    found_user (ok found) t h = record {
      effect = after_quiet h (lock_mailbox-Affects found t (h.stage_is ∙ out)).effect;
    }
    found_user (err e) t h = record { effect = calm h }
log_in-Affects cfg [] s out = quiet_first s _ (still s _)
log_in-Affects cfg (a ∷ b ∷ ws) s out = quiet_first s _ (still s _)

pub user-not_in : (x : SessionState) → in_user x ≡ true → in_transaction x ≡ false
user-not_in s_init p = cc
user-not_in s_user p = refl
user-not_in s_transaction p = cc

-- The effect of PASS, whatever it returns.
pub pass-Effect : (cfg : Config) (c : Command) (s : Session) → Effect s (pass cfg c s).1
unfolding pass
pass-Effect cfg c s = (in_state (Bool-cases (in_user s.state))).effect
  where
    in_state : (in_user s.state ≡ true) ⊎ (in_user s.state ≡ false) → Affects s (pass cfg c s)
    in_state (inl due) = rw (pass, due) (log_in-Affects cfg (args c) s (user-not_in s.state due))
    in_state (inr early) = rw (pass, early) (quiet_first s _ (still s _))
