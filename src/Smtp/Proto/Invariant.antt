-- ===== src/Smtp/Proto/Invariant.antt =====
-- The invariant of a session, through every command and every session.
use native.Mathlib.Nat.{le_refl}
use briefmail.Base.{
  ℕ, zero, ◌≡◌, refl, Option, none, some, length, ◌≤◌, ◌<◌, suc, subst, true, ◌≢◌, ap, arith, [],
  Bytes, codes,
}
use briefmail.Outcome.{
  Error, bad_sequence, command_syntax, invalid_address_format, path_too_long, Result, ok, err,
}
use briefmail.Smtp.Auth.Keeps.{auth-Keeps}
use briefmail.Smtp.Command.{Command, parse}
use briefmail.Smtp.Data.Keeps.{data_handler-Keeps}
use briefmail.Smtp.Handlers.Keeps.{
  helo-Keeps, ehlo-Keeps, noop-Keeps, rset-Keeps, vrfy-Keeps, quit-Keeps, mail-Keeps, rcpt-Keeps,
  starttls-Keeps,
}
use briefmail.Smtp.Invariant.{in_mail, Inv, Keeps, send-Keeps, on_conn-Keeps}
use briefmail.Smtp.Proto.{
  Verb, helo_verb, ehlo_verb, mail_verb, rcpt_verb, data_verb, noop_verb, rset_verb, vrfy_verb,
  quit_verb, starttls_verb, auth_verb, verb_of, handler, answer_error, dispatch, round, loop,
  finish, farewell, handle,
}
use briefmail.TextProto.Conn.Lines.{timed_read-ok, timed_read-lines}
use briefmail.Smtp.Session.{
  SessionState, s_init, s_helo, s_mail, s_rcpt, Config, Session, send, read, read_conn, reply,
}

module _ (cfg : Config) (n : ℕ) where
  -- Every handler, on every branch, errors included, keeps the invariant.
  pub handler-Keeps : (v : Verb) (c : Command) → Keeps cfg n (handler cfg v c)
  unfolding handler
  handler-Keeps helo_verb = helo-Keeps cfg n
  handler-Keeps ehlo_verb = ehlo-Keeps cfg n
  handler-Keeps mail_verb = mail-Keeps cfg n
  handler-Keeps rcpt_verb = rcpt-Keeps cfg n
  handler-Keeps data_verb = data_handler-Keeps cfg n
  handler-Keeps noop_verb = noop-Keeps cfg n
  handler-Keeps rset_verb = rset-Keeps cfg n
  handler-Keeps vrfy_verb = vrfy-Keeps cfg n
  handler-Keeps quit_verb = quit-Keeps cfg n
  handler-Keeps starttls_verb = starttls-Keeps cfg n
  handler-Keeps auth_verb = auth-Keeps cfg n

  answer_error-Keeps : (r : Result (Unit {0})) → Keeps cfg n (answer_error r)
  unfolding answer_error
  answer_error-Keeps (ok x) s h = record { inv = h }
  answer_error-Keeps (err bad_sequence) s h =
      send-Keeps cfg n (reply 503 (codes "bad sequence of commands")) s h
  answer_error-Keeps (err command_syntax) s h =
      send-Keeps cfg n (reply 501 (codes "syntax error in parameters or arguments")) s h
  answer_error-Keeps (err invalid_address_format) s h =
      send-Keeps cfg n (reply 553 (codes "invalid address format")) s h
  answer_error-Keeps (err path_too_long) s h =
      send-Keeps cfg n (reply 501 (codes "path too long")) s h
  answer_error-Keeps (err _) s h = record { inv = h }

  dispatch-Keeps : (v : Option Verb) (c : Command) → Keeps cfg n (dispatch cfg v c)
  unfolding dispatch
  dispatch-Keeps none c s h = send-Keeps cfg n (reply 502 (codes "command not implemented")) s h
  dispatch-Keeps (some v) c s h =
      answer_error-Keeps (handler cfg v c s).0 (handler cfg v c s).1 (handler-Keeps v c s h).inv

read-Keeps : (cfg : Config) (n : ℕ) (s : Session) → Inv cfg n s → Inv cfg n (read s).1
unfolding read read_conn
read-Keeps cfg n s h = (on_conn-Keeps cfg n read_conn timed_read-lines s h).inv

read-less :
    (s : Session) (line : Bytes)
    → (read s).0 ≡ ok line
    → length (read s).1.conn.reader.tokens < length s.conn.reader.tokens
unfolding read read_conn
read-less s line p = timed_read-ok s.conn line p

-- with a line read, `n` lines are left of `n + 1`
read-Inv :
    (cfg : Config) (n : ℕ) (s : Session) (line : Bytes)
    → (read s).0 ≡ ok line
    → Inv cfg (suc n) s
    → Inv cfg n (read s).1
unfolding read
read-Inv cfg n s line p h = record {
  sender = h.sender;
  recipients = h.recipients;
  room = h.room;
  some_recipient = h.some_recipient;
  lines = omega (arith, timed_read-ok s.conn line p, h.lines);
}

weaken : (cfg : Config) {m n : ℕ} (s : Session) → m ≤ n → Inv cfg m s → Inv cfg n s
weaken cfg s le h = record {
  sender = h.sender;
  recipients = h.recipients;
  room = h.room;
  some_recipient = h.some_recipient;
  lines = omega (arith, le, h.lines);
}

-- What a round leaves: the invariant, and a line less when the session goes on.
record Round (cfg : Config) (n : ℕ) (p : Result (Unit {0}) × Session) : Type 0 where
  kept : Inv cfg n p.1
  less : p.0 ≡ ok tt → (m : ℕ) × (n ≡ suc m) × Inv cfg m p.1

by_line :
    (cfg : Config) (n : ℕ) (s : Session) (x : Result Bytes)
    → Inv cfg n s
    → (read s).0 ≡ x
    → Round cfg n (round cfg s)
unfolding round
by_line cfg n s (err e) h p = rw (p, round) (record { kept = read-Keeps cfg n s h; less = λ q. cc })
by_line cfg zero s (ok line) h p = absurd (omega (arith, read-less s line p, h.lines))
by_line cfg (suc m) s (ok line) h p =
    let s'' = (dispatch cfg (verb_of (parse line).head) (parse line) (read s).1).1 in
    let h' =
      (dispatch-Keeps cfg m (verb_of (parse line).head) (parse line) (read s).1
        (read-Inv cfg m s line p h)).inv in
    rw (p, round) (record { kept = weaken cfg s'' (omega arith) h'; less = λ q. (m, refl, h') })

round-Round : (cfg : Config) (n : ℕ) (s : Session) → Inv cfg n s → Round cfg n (round cfg s)
round-Round cfg n s h = by_line cfg n s (read s).0 h refl

by_round :
    (cfg : Config) (n : ℕ) (s : Session) (x : Result (Unit {0}))
    → Inv cfg n s
    → (round cfg s).0 ≡ x
    → (e : Error) × (s' : Session) × (loop cfg (suc n) s ≡ some (e, s')) × Inv cfg n s'
unfolding loop
by_round cfg n s (err e) h p = (e, (round cfg s).1, rw (p, loop) refl, (round-Round cfg n s h).kept)
by_round cfg zero s (ok tt) h p =
    let (m, q, h') = (round-Round cfg zero s h).less p in absurd (omega (arith, q))
by_round cfg (suc n) s (ok tt) h p =
    let (m, q, h') = (round-Round cfg (suc n) s h).less p in
    let (e, s', eq, k) =
      by_round cfg n (round cfg s).1 (round cfg (round cfg s).1).0
        (subst (λ i. Inv cfg i (round cfg s).1) (omega (arith, q)) h') refl in
    (e, s', rw (p, loop) eq, weaken cfg s' (omega arith) k)

-- With one round more than there are lines to read the loop ends, and the invariant holds.
pub loop-Inv :
    (cfg : Config) (n : ℕ) (s : Session)
    → Inv cfg n s
    → (e : Error) × (s' : Session) × (loop cfg (suc n) s ≡ some (e, s')) × Inv cfg n s'
loop-Inv cfg n s h = by_round cfg n s (round cfg s).0 h refl

finish-Inv :
    (cfg : Config) (n : ℕ) (o : Option (Error × Session)) (e : Error) (s : Session)
    → o ≡ some (e, s)
    → Inv cfg n s
    → (s' : Session) × (finish o ≡ some s') × Inv cfg n s'
unfolding finish
finish-Inv cfg n o e s p h =
    rw p ((send (farewell e) s).1, refl, (send-Keeps cfg n (farewell e) s h).inv)

greeting-Inv :
    (cfg : Config) (s : Session) (x : Result (Unit {0}))
    → Inv cfg (length s.conn.reader.tokens) s
    → (send (reply 220 (codes "ready")) s).0 ≡ x
    → (s' : Session) × (handle cfg s ≡ some s') × Inv cfg (length s.conn.reader.tokens) s'
unfolding handle
greeting-Inv cfg s (err e) h p =
    let r = send (reply 220 (codes "ready")) s in
    (r.1, rw (p, handle) refl, (send-Keeps cfg _ (reply 220 (codes "ready")) s h).inv)
greeting-Inv cfg s (ok tt) h p =
    let r = send (reply 220 (codes "ready")) s in
    let n = length s.conn.reader.tokens in
    let (e, s', eq, k) =
      loop-Inv cfg n r.1 (send-Keeps cfg n (reply 220 (codes "ready")) s h).inv in
    let (s'', eq', k') = finish-Inv cfg n (loop cfg (suc n) r.1) e s' eq k in
    (s'', rw (p, handle) eq', k')

-- A session starts with nothing in its envelope.
start-Inv :
    (cfg : Config) (s : Session)
    → s.state ≡ s_init
    → s.envelope.to ≡ []
    → Inv cfg (length s.conn.reader.tokens) s
start-Inv cfg s p q = record {
  sender = λ i. absurd (idle s.state p i);
  recipients = rw q tt;
  room = omega (arith, ap length q);
  some_recipient = λ r. cc;
  lines = le_refl (length s.conn.reader.tokens);
}
  where
    idle : (x : SessionState) → x ≡ s_init → in_mail x ≢ true
    idle s_init p r = cc
    idle s_helo p r = cc
    idle s_mail p r = cc
    idle s_rcpt p r = cc

-- A session in state init with no recipients is served to its end, whatever the client sends and
-- whichever calls of the environment fail: the loop ends within one round more than there are
-- lines to read. In the session that it leaves the recipients are known, at most 101, and none is
-- remote unless it has logged in; if it is left between MAIL and the end of the mail, the sender is
-- one that it may use.
pub handle-Inv :
    (cfg : Config) (s : Session)
    → s.state ≡ s_init
    → s.envelope.to ≡ []
    → (s' : Session) × (handle cfg s ≡ some s') × Inv cfg (length s.conn.reader.tokens) s'
handle-Inv cfg s p q =
    greeting-Inv cfg s (send (reply 220 (codes "ready")) s).0 (start-Inv cfg s p q) refl

-- Every handler of the protocol keeps the invariant of a session, on every branch, with and without
-- an error.
pub handler-Inv :
    (cfg : Config) (n : ℕ) (v : Verb) (c : Command) (s : Session)
    → Inv cfg n s
    → Inv cfg n (handler cfg v c s).1
handler-Inv cfg n v c s h = (handler-Keeps cfg n v c s h).inv
