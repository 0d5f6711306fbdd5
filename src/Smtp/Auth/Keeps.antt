-- ===== src/Smtp/Auth/Keeps.antt =====
-- AUTH keeps the invariant of a session: it is in order between mails only.
use briefmail.Base.{
  ℕ, ◌≡◌, refl, Bool, true, false, ◌&&◌, not, List, [], ◌∷◌, Option, none, some, Bytes, codes,
  equal, ltb, length, All,
}
use briefmail.Outcome.{Error, command_syntax, Exec, Action, raise, of_option, ◌>>=◌}
use briefmail.Addressbook.{Entry}
use briefmail.Model.Address.{Address}
use briefmail.Smtp.Auth.{accept_login, log_in, plain_parts, plain, login, by_mechanism, auth}
use briefmail.Smtp.Command.{Command}
use briefmail.Smtp.Handlers.{may_receive}
use briefmail.Smtp.Invariant.{
  Inv, Safe, Keeps, continue-Safe, if-Safe-at, send-Keeps, on_conn-Keeps,
}
use briefmail.Smtp.Session.{
  SessionState, s_init, s_helo, s_mail, s_rcpt, Config, Session, on_conn, on_session_db, reply,
  send,
}
use briefmail.Storage.Db.{authenticate}
use briefmail.Text.{fields, split, to_upper}
use briefmail.Text.Base64
use briefmail.TextProto.Conn.{conn_read_line}
use briefmail.TextProto.Conn.Lines.{read_line-lines}

-- who may be sent mail without a login may be sent mail with one
may_receive_logged_in :
    (o : Option ℕ) (e : Option Entry) (m : ℕ)
    → may_receive o e ≡ true
    → may_receive (some m) e ≡ true
may_receive_logged_in none (some e) m h = refl
may_receive_logged_in (some n) (some e) m h = refl
may_receive_logged_in none none m h = h
may_receive_logged_in (some n) none m h = h

module _ (cfg : Config) (n : ℕ) where
  All-logged_in :
      (o : Option ℕ) (m : ℕ) (to : List Address)
      → All (λ a. may_receive o (cfg.lookup a) ≡ true) to
      → All (λ a. may_receive (some m) (cfg.lookup a) ≡ true) to
  All-logged_in o m [] h = tt
  All-logged_in o m (a ∷ to) h =
      (may_receive_logged_in o (cfg.lookup a) m h.0, All-logged_in o m to h.1)

  -- What keeps the invariant from a session in state `s_helo`.
  abbrev Logs : Action Session → Type 0
  Logs m = (s : Session) → s.state ≡ s_helo → Inv cfg n s → Safe cfg n (m s)

  accept_login-Logs : (found : ℕ × Bool) → Logs (accept_login found)
  unfolding accept_login
  accept_login-Logs (m, true) s p h =
      send-Keeps cfg n (reply 235 (codes "I was sure I saw you before."))
        (record s { mailbox = some m })
        (record {
          sender = λ q. cc;
          recipients = All-logged_in s.mailbox m s.envelope.to h.recipients;
          room = h.room;
          some_recipient = λ q. cc;
          lines = h.lines;
        })
  accept_login-Logs (m, false) s p h = send-Keeps cfg n (reply 535 (codes "Solid attempt.")) s h

  log_in-Logs : (name pass : Bytes) → Logs (log_in cfg name pass)
  unfolding log_in
  log_in-Logs name pass s p h =
      let r = on_session_db (authenticate cfg.bcrypt name pass) s in
      continue-Safe cfg n r.0 accept_login r.1 h (λ found _. accept_login-Logs found r.1 p h)

  plain_parts-Logs : (parts : List Bytes) → Logs (plain_parts cfg parts)
  unfolding plain_parts
  plain_parts-Logs (authorize ∷ name ∷ pass ∷ []) s p h =
      if-Safe-at cfg n (ltb 0 (length authorize) && not (equal authorize name)) _
        (log_in cfg name pass) s (λ _. send-Keeps cfg n (reply 535 (codes "Solid attempt.")) s h)
        (λ _. log_in-Logs name pass s p h)
  plain_parts-Logs _ s p h = record { inv = h }

  option-Logs :
      {A : Type 0} (e : Error) (o : Option A) (f : A → Action Session)
      → ((a : A) → Logs (f a))
      → Logs (of_option e o >>= f)
  option-Logs e none f k s p h = record { inv = h }
  option-Logs e (some a) f k s p h = k a s p h

  plain-Logs : (fs : List Bytes) → Logs (plain cfg fs)
  unfolding plain
  plain-Logs (mechanism ∷ response ∷ []) s p h =
      option-Logs command_syntax (Base64.decode response) (λ b. plain_parts cfg (split 0 b))
        (λ b. plain_parts-Logs (split 0 b)) s p h
  plain-Logs _ s p h = record { inv = h }

  conn-Logs :
      {A : Type 0} (m : Exec Session A) (f : A → Action Session)
      → ((s : Session)
          → s.state ≡ s_helo
          → Inv cfg n s
          → Inv cfg n (m s).1 × ((m s).1.state ≡ s_helo))
      → ((a : A) → Logs (f a))
      → Logs (m >>= f)
  conn-Logs m f k l s p h =
      let (h', p') = k s p h in continue-Safe cfg n (m s).0 f (m s).1 h' (λ a _. l a (m s).1 p' h')

  read_line-Inv : (s : Session) → Inv cfg n s → Inv cfg n (on_conn conn_read_line s).1
  read_line-Inv s h = (on_conn-Keeps cfg n conn_read_line read_line-lines s h).inv

  prompt-Inv :
      (t : Bytes) (s : Session)
      → s.state ≡ s_helo
      → Inv cfg n s
      → Inv cfg n (send (reply 334 t) s).1 × ((send (reply 334 t) s).1.state ≡ s_helo)
  unfolding send
  prompt-Inv t s p h = ((send-Keeps cfg n (reply 334 t) s h).inv, p)

  login-Logs : Logs (login cfg)
  unfolding login
  login-Logs =
      conn-Logs (send (reply 334 (codes "VXNlcm5hbWU6"))) _ (prompt-Inv (codes "VXNlcm5hbWU6"))
        (λ _.
          conn-Logs (on_conn conn_read_line) _ (λ s p h. (read_line-Inv s h, p))
            (λ line. option-Logs command_syntax (Base64.decode line) _ (λ name.
              conn-Logs (send (reply 334 (codes "UGFzc3dvcmQ6"))) _
                (prompt-Inv (codes "UGFzc3dvcmQ6"))
                (λ _.
                  conn-Logs (on_conn conn_read_line) _ (λ s p h. (read_line-Inv s h, p))
                    (λ line'.
                      option-Logs command_syntax (Base64.decode line') (log_in cfg name)
                        (log_in-Logs name))))))

  by_mechanism-Logs : (fs : List Bytes) → Logs (by_mechanism cfg fs)
  unfolding by_mechanism
  by_mechanism-Logs [] s p h = record { inv = h }
  by_mechanism-Logs (mechanism ∷ rest) s p h =
      if-Safe-at cfg n (equal (to_upper mechanism) (codes "PLAIN")) (plain cfg (mechanism ∷ rest)) _
        s (λ _. plain-Logs (mechanism ∷ rest) s p h)
        (λ _.
          if-Safe-at cfg n (equal (to_upper mechanism) (codes "LOGIN")) (login cfg)
            (raise command_syntax) s (λ _. login-Logs s p h) (λ _. record { inv = h }))

  auth_in :
      (c : Command) (s : Session) (x : SessionState)
      → s.state ≡ x
      → Inv cfg n s
      → Safe cfg n (auth cfg c s)
  unfolding auth
  auth_in c s s_helo p h = rw (p, auth) (by_mechanism-Logs (fields c.tail) s p h)
  auth_in c s s_init p h = rw (p, auth) (record { inv = h })
  auth_in c s s_mail p h = rw (p, auth) (record { inv = h })
  auth_in c s s_rcpt p h = rw (p, auth) (record { inv = h })

  pub auth-Keeps : (c : Command) → Keeps cfg n (auth cfg c)
  auth-Keeps c s h = auth_in c s s.state refl h
