-- ===== src/Smtp/Handlers/Keeps.antt =====
-- The handlers of Smtp.Handlers keep the invariant.
use native.Mathlib.Nat.{le_refl}
use briefmail.Base.{
  ℕ, ◌≤◌, ◌≡◌, ◌≢◌, refl, ap, ◌∙◌, true, not, none, some, List, [], ◌∷◌, ◌++◌, Bytes, codes, ltb,
  length, length-append, All-append, arith,
}
use briefmail.Outcome.{ok}
use briefmail.Model.Address.{Address, parse_address}
use briefmail.Smtp.Command.{Command, args}
use briefmail.Smtp.Handlers.{
  ehlo_lines, ehlo_extensions, ehlo_conn, after_rset, helo, ehlo, noop, rset, vrfy, quit, mail,
  rcpt, starttls, may_send, may_receive, Verdict, accept, reject, fail, SizeCheck, fits, too_big,
  malformed, check_params, accept_from, from_hooks, mail_from, add_recipient, rcpt_to, rcpt_limited,
  run_from_hooks,
}
use briefmail.Smtp.Invariant.{
  in_mail, Inv, Safe, Keeps, leave, continue-Safe, if-Safe, if-Safe-at, bind-Keeps, send-Keeps,
  on_conn-Keeps,
}
use briefmail.Smtp.Session.{
  SessionState, s_init, s_helo, s_mail, s_rcpt, Config, Session, is_submission, send, on_conn,
  reply,
}
use briefmail.TextProto.Conn.{Conn, call, write_string, end_line, upgrade_tls}
use briefmail.TextProto.Conn.Lines.{upgrade_tls-tokens}

upgrade_tls-lines : (c : Conn) → length (upgrade_tls c).1.reader.tokens ≤ length c.reader.tokens
upgrade_tls-lines c = rw upgrade_tls-tokens (le_refl (length c.reader.tokens))

ehlo_lines-reader : (exts : List Bytes) (c : Conn) → (ehlo_lines exts c).reader ≡ c.reader
unfolding ehlo_lines
ehlo_lines-reader [] c = refl
ehlo_lines-reader (e ∷ exts) c =
    ehlo_lines-reader exts (end_line (write_string e (write_string (codes "250-") c)))

ehlo_extensions-reader : (exts : List Bytes) (c : Conn) → (ehlo_extensions exts c).reader ≡ c.reader
unfolding ehlo_extensions
ehlo_extensions-reader [] c = refl
ehlo_extensions-reader (e ∷ exts) c = ehlo_lines-reader exts c

ehlo_conn-reader : (cfg : Config) (c : Conn) → (ehlo_conn cfg c).1.reader ≡ c.reader
unfolding ehlo_conn
ehlo_conn-reader cfg c =
    ehlo_extensions-reader (cfg.extensions ++ (codes "8BITMIME" ∷ []))
      (end_line (write_string cfg.hostname (write_string (codes "250-") (call c).1)))

ehlo_conn-lines :
    (cfg : Config) (c : Conn) → length (ehlo_conn cfg c).1.reader.tokens ≤ length c.reader.tokens
ehlo_conn-lines cfg c = rw ehlo_conn-reader (le_refl (length c.reader.tokens))

-- the session that HELO and EHLO leave
abbrev greeted : Command → Session → Session
greeted c s = record s { state = s_helo; envelope = record s.envelope { helo = c.tail } }

module _ (cfg : Config) (n : ℕ) where
  greeted-Inv : (c : Command) (s : Session) → Inv cfg n s → Inv cfg n (greeted c s)
  greeted-Inv c s h =
      leave cfg n s.state s.envelope.from s.envelope.to s.mailbox s.conn.reader.tokens h s_helo refl
        (λ p. cc)

  pub helo-Keeps : (c : Command) → Keeps cfg n (helo cfg c)
  unfolding helo
  helo-Keeps c s h = send-Keeps cfg n (reply 250 cfg.hostname) (greeted c s) (greeted-Inv c s h)

  pub ehlo-Keeps : (c : Command) → Keeps cfg n (ehlo cfg c)
  unfolding ehlo
  ehlo-Keeps c s h =
      on_conn-Keeps cfg n (ehlo_conn cfg) (ehlo_conn-lines cfg) (greeted c s) (greeted-Inv c s h)

  pub noop-Keeps : (c : Command) → Keeps cfg n (noop c)
  unfolding noop
  noop-Keeps c = send-Keeps cfg n (reply 250 (codes "nothing happened. as expected"))

  pub vrfy-Keeps : (c : Command) → Keeps cfg n (vrfy c)
  unfolding vrfy
  vrfy-Keeps c = send-Keeps cfg n (reply 252 (codes "maybe, maybe not? who knows for sure"))

  pub quit-Keeps : (c : Command) → Keeps cfg n (quit c)
  unfolding quit
  quit-Keeps c s h = record { inv = h }

  after_rset-idle : (x : SessionState) → in_mail (after_rset x) ≢ true
  after_rset-idle s_init p = cc
  after_rset-idle s_helo p = cc
  after_rset-idle s_mail p = cc
  after_rset-idle s_rcpt p = cc

  pub rset-Keeps : (c : Command) → Keeps cfg n (rset c)
  unfolding rset
  rset-Keeps c s h =
      send-Keeps cfg n (reply 250 (codes "everything gone. pinky promise"))
        (record s {
          state = after_rset s.state;
          envelope = record s.envelope { from = none; to = [] };
          headers = [];
        })
        (record {
          sender = λ p. absurd (after_rset-idle s.state p);
          recipients = tt;
          room = omega arith;
          some_recipient = λ p. absurd (after_rset-idle s.state (ap in_mail p));
          lines = h.lines;
        })

  accept_from-Safe :
      (from : Address) (v : Verdict) (s : Session)
      → may_send s.mailbox (cfg.lookup from) ≡ ok true
      → Inv cfg n s
      → Safe cfg n (accept_from from v s)
  unfolding accept_from
  accept_from-Safe from (fail e) s a h = record { inv = h }
  accept_from-Safe from (reject r) s a h = send-Keeps cfg n r s h
  accept_from-Safe from (accept headers) s a h =
      send-Keeps cfg n (reply 250 (codes "noted."))
        (record s {
          headers = headers;
          envelope = record s.envelope { from = some from };
          state = s_mail;
        })
        (record {
          sender = λ p. record { address = from; from_is = refl; allowed = a };
          recipients = h.recipients;
          room = h.room;
          some_recipient = λ p. cc;
          lines = h.lines;
        })

  from_hooks-Safe :
      (from : Address) (size : SizeCheck) (s : Session)
      → may_send s.mailbox (cfg.lookup from) ≡ ok true
      → Inv cfg n s
      → Safe cfg n (from_hooks cfg from size s)
  unfolding from_hooks
  from_hooks-Safe from malformed s a h = record { inv = h }
  from_hooks-Safe from too_big s a h = send-Keeps cfg n (reply 552 (codes "bit too much")) s h
  from_hooks-Safe from fits s a h =
      accept_from-Safe from
        (run_from_hooks cfg.from_hooks (is_submission s) s.conn.remote_addr from) s a h

  mail_from-Keeps : (c : Command) → Keeps cfg n (mail_from cfg c)
  unfolding mail_from
  mail_from-Keeps c s h = continue-Safe cfg n (args (codes "FROM") c) _ s h (λ r _.
      continue-Safe cfg n (parse_address cfg.normalizer r.0) _ s h (λ from _.
        continue-Safe cfg n (may_send s.mailbox (cfg.lookup from)) _ s h (λ allowed p.
          if-Safe-at cfg n allowed (from_hooks cfg from (check_params cfg.max_size r.1)) _ s
            (λ t. from_hooks-Safe from (check_params cfg.max_size r.1) s (p ∙ ap ok t) h)
            (λ _. send-Keeps cfg n (reply 530 (codes "that does not sound like you")) s h))))

  -- in a state where MAIL is not in order nothing changes
  mail_in :
      (c : Command) (s : Session) (x : SessionState)
      → s.state ≡ x
      → Inv cfg n s
      → Safe cfg n (mail cfg c s)
  unfolding mail
  mail_in c s s_helo p h = rw (p, mail) (mail_from-Keeps c s h)
  mail_in c s s_mail p h = rw (p, mail) (mail_from-Keeps c s h)
  mail_in c s s_init p h = rw (p, mail) (record { inv = h })
  mail_in c s s_rcpt p h = rw (p, mail) (record { inv = h })

  pub mail-Keeps : (c : Command) → Keeps cfg n (mail cfg c)
  mail-Keeps c s h = mail_in c s s.state refl h

  add_recipient-Safe :
      (to : Address) (s : Session)
      → in_mail s.state ≡ true
      → length s.envelope.to ≤ 100
      → may_receive s.mailbox (cfg.lookup to) ≡ true
      → Inv cfg n s
      → Safe cfg n (add_recipient to s)
  unfolding add_recipient
  add_recipient-Safe to s m few known h =
      send-Keeps cfg n (reply 250 (codes "yup, another?"))
        (record s {
          envelope = record s.envelope { to = s.envelope.to ++ (to ∷ []) };
          state = s_rcpt;
        })
        (record {
          sender = λ p. h.sender m;
          recipients =
              All-append (λ a. may_receive s.mailbox (cfg.lookup a) ≡ true) s.envelope.to (to ∷ [])
                h.recipients (known, tt);
          room = omega (arith, length-append s.envelope.to (to ∷ []));
          some_recipient = λ p q. omega (arith, ap length q, length-append s.envelope.to (to ∷ []));
          lines = h.lines;
        })

  rcpt_to-Safe :
      (c : Command) (s : Session)
      → in_mail s.state ≡ true
      → length s.envelope.to ≤ 100
      → Inv cfg n s
      → Safe cfg n (rcpt_to cfg c s)
  unfolding rcpt_to
  rcpt_to-Safe c s m few h = continue-Safe cfg n (args (codes "TO") c) _ s h (λ r _.
      continue-Safe cfg n (parse_address cfg.normalizer r.0) _ s h (λ to _.
        if-Safe-at cfg n (may_receive s.mailbox (cfg.lookup to)) (add_recipient to) _ s
          (λ known. add_recipient-Safe to s m few known h)
          (λ _. send-Keeps cfg n (reply 550 (codes "never heard of that person.")) s h)))

  rcpt_limited-Safe :
      (c : Command) (s : Session)
      → in_mail s.state ≡ true
      → Inv cfg n s
      → Safe cfg n (rcpt_limited cfg c s)
  unfolding rcpt_limited
  rcpt_limited-Safe c s m h =
      if-Safe cfg n (ltb 100 (length s.envelope.to)) _ (rcpt_to cfg c s)
        (λ _. send-Keeps cfg n (reply 452 (codes "that is quite a crowd already!")) s h)
        (λ free. rcpt_to-Safe c s m (ground arith) h)

  rcpt_in :
      (c : Command) (s : Session) (x : SessionState)
      → s.state ≡ x
      → Inv cfg n s
      → Safe cfg n (rcpt cfg c s)
  unfolding rcpt
  rcpt_in c s s_mail p h = rw (p, rcpt) (rcpt_limited-Safe c s (ap in_mail p) h)
  rcpt_in c s s_rcpt p h = rw (p, rcpt) (rcpt_limited-Safe c s (ap in_mail p) h)
  rcpt_in c s s_init p h = rw (p, rcpt) (record { inv = h })
  rcpt_in c s s_helo p h = rw (p, rcpt) (record { inv = h })

  pub rcpt-Keeps : (c : Command) → Keeps cfg n (rcpt cfg c)
  rcpt-Keeps c s h = rcpt_in c s s.state refl h

  pub starttls-Keeps : (c : Command) → Keeps cfg n (starttls cfg c)
  unfolding starttls
  starttls-Keeps c s h =
      if-Safe cfg n (not cfg.tls_config) _ _
        (λ _. send-Keeps cfg n (reply 454 (codes "I am afraid, I lost my disguise!")) s h)
        (λ _.
          if-Safe cfg n s.conn.is_tls _ _
            (λ _. send-Keeps cfg n (reply 454 (codes "what are you afraid of?")) s h)
            (λ _.
              bind-Keeps cfg n (send (reply 220 (codes "ready to go undercover.")))
                (λ _. on_conn upgrade_tls)
                (send-Keeps cfg n (reply 220 (codes "ready to go undercover.")))
                (λ _. on_conn-Keeps cfg n upgrade_tls upgrade_tls-lines) s h))
