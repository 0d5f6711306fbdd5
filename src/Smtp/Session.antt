-- ===== src/Smtp/Session.antt =====
-- internal/smtp/session.go and reply.go, the types of hook/hook.go, and what a session shares.
use briefmail.Base.{ℕ, Bool, true, false, Option, none, some, List, Bytes, codes}
use briefmail.Outcome.{Result, Exec, Action, ◌>>◌}
use briefmail.Addressbook.{Entry}
use briefmail.Delivery.Mailman.{Post, on_store}
use briefmail.Model.Address.{Address, Normalizer, Envelope}
use briefmail.Storage.Cache.{Cache}
use briefmail.Storage.Cleaner.{on_db}
use briefmail.Storage.Db.{Db, Bcrypt}
use briefmail.Text.{itoa}
use briefmail.TextProto.Conn.{Conn, set_timeout, write_string, end_line, flush, conn_read_line}

pub data SessionState : Type 0 where
  s_init s_helo s_mail s_rcpt : SessionState

pub record HeaderField : Type 0 where
  pub key : Bytes
  pub value : Bytes

-- hook.Result
pub record HookResult : Type 0 where
  pub reject : Bool
  pub headers : List HeaderField
  pub code : ℕ
  pub text : Bytes

pub record Reply : Type 0 where
  pub code : ℕ
  pub text : Bytes

-- The arguments of New, the configuration, and the functions of others that the handlers call.
-- A FromHook is given the text of the remote address, a DataHook the bytes of the mail.
-- `max_size` is 0 for a `mail.size` that is not positive.
pub record Config : Type 0 where
  pub hostname : Bytes
  pub extensions : List Bytes
  pub max_size : ℕ
  pub lookup : Address → Option Entry
  pub normalizer : Normalizer
  pub bcrypt : Bcrypt
  pub from_hooks : List (Bool → Bytes → Address → Result HookResult)
  pub data_hooks : List (Bool → Bytes → Result HookResult)
  pub tls_config : Bool
  -- Time.Format(time.RFC1123Z)
  pub format_date : ℕ → Bytes

-- `post` and `cache` are shared with other sessions; `now` is what time.Now returns next.
pub record Session : Type 0 where
  pub conn : Conn
  pub state : SessionState
  pub envelope : Envelope
  pub headers : List HeaderField
  pub mailbox : Option ℕ
  pub post : Post
  pub cache : Cache
  pub now : ℕ

abbrev pub on_conn : {A : Type 0} → Exec Conn A → Exec Session A
on_conn m s = let r = m s.conn in (r.0, record s { conn = r.1 })

abbrev pub on_post : {A : Type 0} → Exec Post A → Exec Session A
on_post m s = let r = m s.post in (r.0, record s { post = r.1 })

abbrev pub on_session_db : {A : Type 0} → Exec Db A → Exec Session A
on_session_db m = on_post (on_store (on_db m))

abbrev pub on_cache : {A : Type 0} → Exec Cache A → Exec Session A
on_cache m s = let r = m s.cache in (r.0, record s { cache = r.1 })

-- (*session).isSubmission
abbrev pub is_submission : Session → Bool
is_submission s = elim s.mailbox [ none ↦ false | some m ↦ true ]

abbrev pub reply : ℕ → Bytes → Reply
reply code text = record { code = code; text = text }

-- (*reply).writeTo
unfoldable pub write_to : Reply → Action Conn
unfolding itoa
write_to r c =
    flush (end_line (write_string r.text (write_string (codes " ") (write_string (itoa r.code) c))))

unfoldable pub send_conn : Reply → Action Conn
send_conn r = do set_timeout; write_to r

-- (*session).send
unfoldable pub send : Reply → Action Session
unfolding write_to send_conn
send r s = on_conn (send_conn r) s

unfoldable pub read_conn : Exec Conn Bytes
read_conn = do set_timeout; conn_read_line

-- (*session).read, as far as the line
unfoldable pub read : Exec Session Bytes
unfolding read_conn
read s = on_conn read_conn s
