-- ===== src/Pop3/Handlers/Marks.antt =====
-- The account of the marked messages under USER and PASS of internal/pop3/handler.go, and under
-- all handlers that change the session.
use briefmail.Base.{
  ℕ, ◌≡◌, refl, Bool, true, false, List, [], ◌∷◌, Bytes, codes, inl, inr, Bool-cases,
}
use briefmail.Outcome.{Result, ok, err, Action, continue}
use briefmail.Pop3.Session.{
  lock, Command, args, positive, negative, SessionState, s_init, s_user, s_transaction, Config,
  Session, on_session_db,
}
use briefmail.Pop3.Handlers.{
  in_transaction, before_transaction, in_user, take_name, user, open_mailbox, lock_mailbox, log_in,
  pass, dele, rset,
}
use briefmail.Storage.Db
use briefmail.Storage.Db.{Entry, authenticate}
use briefmail.Pop3.Handlers.Tally.{
  Tallied, Safe, Keeps, send-Keeps, only_in-Safe, dele-Keeps, rset-Keeps,
}

continue-Safe :
    {A : Type 0} (r : Result A) (f : A → Action Session) (s : Session)
    → Tallied s
    → ((a : A) → Safe (f a s))
    → Safe (continue r f s)
continue-Safe (ok a) f s h k = k a
continue-Safe (err e) f s h k = record { inv = h }

open_mailbox-Safe :
    (id : ℕ) (s : Session) → s.mailbox.size_del ≡ 0 → Tallied s → Safe (open_mailbox id s)
unfolding open_mailbox
open_mailbox-Safe id s z h =
    let r = on_session_db (Db.entries id) s in
    continue-Safe r.0 _ r.1 h (λ found.
      send-Keeps (positive (codes "I knew it was you!"))
        (record r.1 {
          mailbox = record s.mailbox { id = id; marks = []; entries = found.0; size = found.1 };
          state = s_transaction;
        })
        (record { in_range = tt; distinct = tt; size_is = z; none_before = λ q. cc }))

lock_mailbox-Safe :
    (found : ℕ × Bool) (s : Session)
    → s.mailbox.size_del ≡ 0
    → Tallied s
    → Safe (lock_mailbox found s)
unfolding lock_mailbox
lock_mailbox-Safe (id, false) s z h = send-Keeps (negative (codes "nice try")) s h
lock_mailbox-Safe (id, true) s z h = elim (Bool-cases (lock id s.locks).0) [
  | inl free ↦
      rw (lock_mailbox, free) (open_mailbox-Safe id (record s { locks = (lock id s.locks).1 }) z h)
  | inr busy ↦ rw (lock_mailbox, busy) (send-Keeps (negative (codes "there is two of you?")) s h)
]

log_in-Safe :
    (cfg : Config) (as' : List Bytes) (s : Session)
    → s.mailbox.size_del ≡ 0
    → Tallied s
    → Safe (log_in cfg as' s)
unfolding log_in
log_in-Safe cfg (secret ∷ []) s z h =
    let r = on_session_db (authenticate cfg.bcrypt s.name secret) s in
    continue-Safe r.0 lock_mailbox r.1 h (λ found. lock_mailbox-Safe found r.1 z h)
log_in-Safe cfg [] s z h = record { inv = h }
log_in-Safe cfg (a ∷ b ∷ as') s z h = record { inv = h }

user-not_in : (x : SessionState) → in_user x ≡ true → in_transaction x ≡ false
user-not_in s_init p = cc
user-not_in s_user p = refl
user-not_in s_transaction p = cc

pass-Keeps : (cfg : Config) (c : Command) → Keeps (pass cfg c)
unfolding pass
pass-Keeps cfg c s h =
    only_in-Safe in_user (log_in cfg (args c)) s
      (λ t. log_in-Safe cfg (args c) s (h.none_before (user-not_in s.state t)).1 h) h

before-not_in : (x : SessionState) → before_transaction x ≡ true → in_transaction x ≡ false
before-not_in s_init p = refl
before-not_in s_user p = refl
before-not_in s_transaction p = cc

take_name-Safe :
    (as' : List Bytes) (s : Session)
    → in_transaction s.state ≡ false
    → Tallied s
    → Safe (take_name as' s)
unfolding take_name
take_name-Safe (name ∷ []) s t h =
    send-Keeps (positive (codes "now the secret")) (record s { name = name; state = s_user })
      (record {
        in_range = h.in_range;
        distinct = h.distinct;
        size_is = h.size_is;
        none_before = λ q. h.none_before t;
      })
take_name-Safe [] s t h = record { inv = h }
take_name-Safe (a ∷ b ∷ as') s t h = record { inv = h }

user-Keeps : (c : Command) → Keeps (user c)
unfolding user
user-Keeps c s h =
    only_in-Safe before_transaction (take_name (args c)) s
      (λ t. take_name-Safe (args c) s (before-not_in s.state t) h) h

-- The four handlers that change the state or the mailbox of a session, USER, PASS, DELE and RSET,
-- keep the account of its marks, on every branch: each mark is the number of an entry, none is made
-- twice, the size of the marked entries is the one that is kept, and none comes before PASS.
pub marks-Tallied :
    (cfg : Config) (c : Command) (s : Session)
    → Tallied s
    → Tallied (user c s).1 × Tallied (pass cfg c s).1 × Tallied (dele c s).1 × Tallied (rset c s).1
marks-Tallied cfg c s h = (
  (user-Keeps c s h).inv,
  (pass-Keeps cfg c s h).inv,
  (dele-Keeps c s h).inv,
  (rset-Keeps c s h).inv,
)
