-- ===== src/Smtp/Auth.antt =====
-- internal/smtp/handler.go: AUTH
pub mod Keeps
use briefmail.Base.{
  ℕ, Bool, true, false, ◌&&◌, not, Option, none, some, List, [], ◌∷◌, Bytes, codes, equal, ltb,
  if◌then◌else◌, length,
}
use briefmail.Outcome.{
  Error, bad_sequence, command_syntax, Result, ok, err, Exec, Action, pure, raise, of_option, ◌>>=◌,
  ◌>>◌,
}
use briefmail.Smtp.Handlers.{Handler}
use briefmail.Smtp.Session.{
  s_init, s_helo, s_mail, s_rcpt, Config, Session, on_conn, on_session_db, reply, send,
}
use briefmail.Storage.Db.{authenticate}
use briefmail.Text.{fields, split, to_upper}
use briefmail.Text.Base64
use briefmail.TextProto.Conn.{conn_read_line}

abbrev failed : Action Session
failed = send (reply 535 (codes "Solid attempt."))

-- `if ok { s.mailbox = &mailbox ... }`
accept_login : ℕ × Bool → Action Session
unfolding send
accept_login (mailbox, true) s =
    send (reply 235 (codes "I was sure I saw you before.")) (record s { mailbox = some mailbox })
accept_login (mailbox, false) s = failed s

-- the end of AUTH
log_in : Config → Bytes → Bytes → Action Session
unfolding authenticate accept_login
log_in cfg name pass = do
  found ← on_session_db (authenticate cfg.bcrypt name pass)
  accept_login found

-- the fields of a decoded PLAIN response
plain_parts : Config → List Bytes → Action Session
unfolding log_in equal
plain_parts cfg (authorize ∷ name ∷ pass ∷ []) =
    if ltb 0 (length authorize) && not (equal authorize name) then failed else log_in cfg name pass
plain_parts cfg _ = raise command_syntax

plain : Config → List Bytes → Action Session
unfolding plain_parts split Base64.decode
plain cfg (mechanism ∷ response ∷ []) = do
  b ← of_option command_syntax (Base64.decode response)
  plain_parts cfg (split 0 b)
plain cfg _ = raise command_syntax

login : Config → Action Session
unfolding send log_in Base64.decode
login cfg = do
  send (reply 334 (codes "VXNlcm5hbWU6"))
  line ← on_conn conn_read_line
  name ← of_option command_syntax (Base64.decode line)
  send (reply 334 (codes "UGFzc3dvcmQ6"))
  line' ← on_conn conn_read_line
  pass ← of_option command_syntax (Base64.decode line')
  log_in cfg name pass

-- the switch over the mechanism
by_mechanism : Config → List Bytes → Action Session
unfolding plain login to_upper equal
by_mechanism cfg [] = raise command_syntax
by_mechanism cfg (mechanism ∷ rest) =
    if equal (to_upper mechanism) (codes "PLAIN")
    then plain cfg (mechanism ∷ rest)
    else if equal (to_upper mechanism) (codes "LOGIN")
    then login cfg
    else raise command_syntax

-- auth
unfoldable pub auth : Config → Handler
unfolding by_mechanism fields
auth cfg c s = elim s.state [
  | s_helo ↦ by_mechanism cfg (fields c.tail) s
  | _ ↦ (err bad_sequence, s)
]
