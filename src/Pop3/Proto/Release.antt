-- ===== src/Pop3/Proto/Release.antt =====
-- What serving a session leaves of the locks of the mailboxes.
use native.Mathlib.Nat.{le_refl}
use briefmail.Base.{
  ℕ, zero, suc, ◌≡◌, refl, ap, ◌≤◌, ◌<◌, subst, arith, Bool, false, some, [], Bytes, codes, length,
}
use briefmail.Outcome.{Error, Result, ok, err}
use briefmail.Pop3.Handlers.{in_transaction}
use briefmail.Pop3.Handlers.Quiet.{send-Calm}
use briefmail.Pop3.Proto.{verb_of, read, round, loop, farewell, leave, finish, handle}
use briefmail.Pop3.Session.{Locks, parse, positive, Config, Session, send}
use briefmail.TextProto.Conn.Lines.{timed_read-ok}
use briefmail.Pop3.Proto.Effects.{dispatch-Effect}
use briefmail.Pop3.Proto.Held.{
  Holds, outside, inside, Sound, Quiet-Sound, Effect-Sound, Effect-reader, leave-locks,
}

read-Sound : {l : ℕ → Bool} (s : Session) → Sound l s → Sound l (read s).1
unfolding read
read-Sound s h = record { holds = on_read h.holds; works = h.works }
  where
    on_read : {l : ℕ → Bool} → Holds l s → Holds l (read s).1
    on_read (outside out same) = outside out same
    on_read (inside in' free taken) = inside in' free taken

read-less :
    (s : Session) (line : Bytes)
    → (read s).0 ≡ ok line
    → length (read s).1.conn.reader.tokens < length s.conn.reader.tokens
unfolding read
read-less s line p = timed_read-ok s.conn line p

-- What a round leaves of a session: a line less, if the session goes on.
round-less :
    (cfg : Config) (s : Session)
    → (round cfg s).0 ≡ ok tt
    → length (round cfg s).1.conn.reader.tokens < length s.conn.reader.tokens
unfolding round
round-less cfg s p = by_line (read s).0 refl
  where
    by_line :
        (x : Result Bytes)
        → (read s).0 ≡ x
        → length (round cfg s).1.conn.reader.tokens < length s.conn.reader.tokens
    by_line (err e) q = cc (rw (q, round) at p)
    by_line (ok line) q =
        rw
          (
            q,
            round,
            Effect-reader (dispatch-Effect cfg (verb_of (parse line).head) (parse line) (read s).1),
          )
          (read-less s line q)

round-Sound : {l : ℕ → Bool} (cfg : Config) (s : Session) → Sound l s → Sound l (round cfg s).1
unfolding round
round-Sound {l} cfg s h = by_line (read s).0 refl
  where
    by_line : (x : Result Bytes) → (read s).0 ≡ x → Sound l (round cfg s).1
    by_line (err e) q = rw (q, round) (read-Sound s h)
    by_line (ok line) q =
        rw (q, round)
          (Effect-Sound (dispatch-Effect cfg (verb_of (parse line).head) (parse line) (read s).1)
            (read-Sound s h))

-- With one round more than there are lines to read, the loop ends.
loop-ends :
    (cfg : Config) (n : ℕ) (s : Session) (x : Result (Unit {0}))
    → length s.conn.reader.tokens ≤ n
    → (round cfg s).0 ≡ x
    → (e : Error) × (s' : Session) × (loop cfg (suc n) s ≡ some (e, s'))
unfolding loop
loop-ends cfg n s (err e) h p = (e, (round cfg s).1, rw (p, loop) refl)
loop-ends cfg zero s (ok done) h p = absurd (omega (arith, round-less cfg s p, h))
loop-ends cfg (suc n) s (ok done) h p =
    let t = (round cfg s).1 in
    let (e, s', eq) =
      loop-ends cfg n t (round cfg t).0 (omega (arith, round-less cfg s p, h)) refl in
    (e, s', rw (p, loop) eq)

last : (x y : Error × Session) → some x ≡ some y → x.1 ≡ y.1
last x y p = cc

loop-Sound :
    {l : ℕ → Bool} (cfg : Config) (n : ℕ) (s : Session) (x : Result (Unit {0})) (e : Error)
    (t : Session)
    → (round cfg s).0 ≡ x
    → loop cfg (suc n) s ≡ some (e, t)
    → Sound l s
    → Sound l t
unfolding loop
loop-Sound {l} cfg n s (err e') e t p q h =
    subst (λ u. Sound l u) (last (e', (round cfg s).1) (e, t) (rw (p, loop) at q))
      (round-Sound cfg s h)
loop-Sound cfg zero s (ok done) e t p q h = cc (rw (p, loop) at q)
loop-Sound cfg (suc n) s (ok done) e t p q h =
    let u = (round cfg s).1 in
    loop-Sound cfg n u (round cfg u).0 e t refl (rw (p, loop) at q) (round-Sound cfg s h)

finish-locks :
    {l : ℕ → Bool} (e : Error) (s t : Session)
    → finish (some (e, s)) ≡ some t
    → Sound l s
    → (k : ℕ) → t.locks.entries k ≡ l k
unfolding finish
finish-locks {l} e s t p h k =
    subst (λ (u : Session). u.locks.entries k ≡ l k) (the_session p)
      (leave-locks l (send (farewell e) s).1 k
        (Quiet-Sound (send-Calm (farewell e) s).quiet h).holds)
  where
    the_session : some (leave (send (farewell e) s).1) ≡ some t → leave (send (farewell e) s).1 ≡ t
    the_session q = cc

-- A session is served to its end, whatever the client sends and whichever calls fail: the loop ends
-- within one round more than there are lines to read.
pub handle-total : (cfg : Config) (s : Session) → (s' : Session) × (handle cfg s ≡ some s')
unfolding handle
handle-total cfg s = by_greeting (send (positive (codes "ready")) s).0 refl
  where
    by_greeting :
        (x : Result (Unit {0}))
        → (send (positive (codes "ready")) s).0 ≡ x
        → (s' : Session) × (handle cfg s ≡ some s')
    by_greeting (err e) p = ((send (positive (codes "ready")) s).1, rw (p, handle) refl)
    by_greeting (ok t) p =
        let u = (send (positive (codes "ready")) s).1 in
        let (e, s', eq) =
          loop-ends cfg (length s.conn.reader.tokens) u (round cfg u).0
            (rw (send-Calm (positive (codes "ready")) s).quiet.reader_is
              (le_refl (length s.conn.reader.tokens)))
            refl in
        (leave (send (farewell e) s').1, rw (p, handle, eq, finish) refl)

-- When a session that started outside a transaction has been served to its end, and no transaction
-- of the database failed, the locks of the mailboxes are what they were: the one that PASS took has
-- been given back, and no other has changed.
pub handle-releases :
    (cfg : Config) (s s' : Session) (k : ℕ)
    → in_transaction s.state ≡ false
    → s.store.db.faults ≡ []
    → handle cfg s ≡ some s'
    → s'.locks.entries k ≡ s.locks.entries k
unfolding handle
handle-releases cfg s s' k out w p = by_greeting (send (positive (codes "ready")) s).0 refl
  where
    start : Sound s.locks.entries (send (positive (codes "ready")) s).1
    start =
        Quiet-Sound (send-Calm (positive (codes "ready")) s).quiet
          (record { holds = outside out refl; works = w })

    by_greeting :
        (x : Result (Unit {0}))
        → (send (positive (codes "ready")) s).0 ≡ x
        → s'.locks.entries k ≡ s.locks.entries k
    by_greeting (err e) q = the_same (rw (q, handle) at p)
      where
        the_session :
            some (send (positive (codes "ready")) s).1 ≡ some s'
            → (send (positive (codes "ready")) s).1 ≡ s'
        the_session r = cc

        the_same :
            some (send (positive (codes "ready")) s).1 ≡ some s'
            → s'.locks.entries k ≡ s.locks.entries k
        the_same r =
            subst (λ (u : Session). u.locks.entries k ≡ s.locks.entries k) (the_session r)
              (ap (λ (x : Locks). x.entries k)
                (send-Calm (positive (codes "ready")) s).quiet.locks_are)
    by_greeting (ok t) q =
        let u = (send (positive (codes "ready")) s).1 in
        let (e, t', eq) =
          loop-ends cfg (length s.conn.reader.tokens) u (round cfg u).0
            (rw (send-Calm (positive (codes "ready")) s).quiet.reader_is
              (le_refl (length s.conn.reader.tokens)))
            refl in
        finish-locks e t' s' (rw (q, handle, eq) at p)
          (loop-Sound cfg (length s.conn.reader.tokens) u (round cfg u).0 e t' refl eq start) k
