-- ===== src/Smtp/Handlers.antt =====
-- internal/smtp/handler.go: the handlers but DATA and AUTH.
pub mod Keeps
use briefmail.Base.{
  ℕ, ◌+◌, Bool, true, false, ◌&&◌, ◌||◌, not, Option, none, some, List, [], ◌∷◌, ◌++◌, Bytes, codes,
  ltb, ◌==◌, if◌then◌else◌, length,
}
use briefmail.Outcome.{
  Error, close_session, bad_sequence, command_syntax, panic, Result, ok, err, Exec, Action, pure,
  raise, lift, of_option, ◌>>=◌, ◌>>◌,
}
use briefmail.Addressbook.{Entry, EntryKind, local, forward, remote}
use briefmail.Model.Address.{Address, parse_address}
use briefmail.Smtp.Command.{Command, args, Params}
use briefmail.Smtp.Session.{
  SessionState, s_init, s_helo, s_mail, s_rcpt, HeaderField, HookResult, Reply, Config, Session,
  on_conn, is_submission, reply, send,
}
use briefmail.Text.{ℤ, pos, negsuc, parse_int, itoa}
use briefmail.TextProto.Conn.{Conn, call, write_string, end_line, flush, upgrade_tls}

abbrev pub Handler : Type 0
Handler = Command → Action Session

-- helo
unfoldable pub helo : Config → Handler
unfolding send
helo cfg c s =
    send (reply 250 cfg.hostname)
      (record s { state = s_helo; envelope = record s.envelope { helo = c.tail } })

ehlo_lines : List Bytes → Conn → Conn
ehlo_lines [] c = c
ehlo_lines (ext ∷ rest) c =
    ehlo_lines rest (end_line (write_string ext (write_string (codes "250-") c)))

-- The extensions after the first, and then the first; `8BITMIME` comes last of them.
ehlo_extensions : List Bytes → Conn → Conn
unfolding ehlo_lines
ehlo_extensions [] c = c
ehlo_extensions (ext ∷ rest) c =
    end_line (write_string ext (write_string (codes "250 ") (ehlo_lines rest c)))

ehlo_conn : Config → Action Conn
unfolding ehlo_extensions
ehlo_conn cfg c = flush (
    ehlo_extensions (cfg.extensions ++ (codes "8BITMIME" ∷ []))
      (end_line (write_string cfg.hostname (write_string (codes "250-") (call c).1))))

-- ehlo; an error of SetWriteTimeout is not looked at
unfoldable pub ehlo : Config → Handler
unfolding ehlo_conn
ehlo cfg c s =
    on_conn (ehlo_conn cfg)
      (record s { state = s_helo; envelope = record s.envelope { helo = c.tail } })

-- noop
unfoldable pub noop : Handler
unfolding send
noop c = send (reply 250 (codes "nothing happened. as expected"))

abbrev after_rset : SessionState → SessionState
after_rset s_init = s_init
after_rset _ = s_helo

-- rset
unfoldable pub rset : Handler
unfolding send
rset c s = send (reply 250 (codes "everything gone. pinky promise")) (record s {
  state = after_rset s.state;
  envelope = record s.envelope { from = none; to = [] };
  headers = [];
})

-- vrfy
unfoldable pub vrfy : Handler
unfolding send
vrfy c = send (reply 252 (codes "maybe, maybe not? who knows for sure"))

-- quit
unfoldable pub quit : Handler
quit c = raise close_session

abbrev pub is_local : EntryKind → Bool
is_local local = true
is_local _ = false

abbrev pub is_remote : EntryKind → Bool
is_remote remote = true
is_remote _ = false

-- `*entry.Mailbox != *s.mailbox`, the other way round
abbrev same_mailbox : Option ℕ → ℕ → Result Bool
same_mailbox none m = err panic
same_mailbox (some n) m = ok (n == m)

-- May the session send from an address with this entry?
abbrev pub may_send : Option ℕ → Option Entry → Result Bool
may_send mailbox none = ok false
may_send none (some e) = ok (not (is_local e.kind))
may_send (some m) (some e) = if is_local e.kind then same_mailbox e.mailbox m else ok false

abbrev exceeds : ℕ → ℤ → Bool
exceeds max (pos n) = ltb max n
exceeds max (negsuc n) = false

pub data SizeCheck : Type 0 where
  fits too_big malformed : SizeCheck

abbrev check_value : ℕ → Option ℤ → SizeCheck
check_value max none = malformed
check_value max (some n) = if exceeds max n then too_big else fits

-- the SIZE parameter
abbrev check_size : ℕ → Option Bytes → SizeCheck
check_size max none = fits
check_size max (some size) = check_value max (parse_int size)

abbrev check_params : ℕ → Params → SizeCheck
check_params max params = if ltb 0 max then check_size max (params (codes "SIZE")) else fits

-- What the loop over the hooks comes to.
pub data Verdict : Type 0 where
  accept : List HeaderField → Verdict
  reject : Reply → Verdict
  fail : Error → Verdict

abbrev pub add_headers : List HeaderField → Verdict → Verdict
add_headers h (accept hs) = accept (h ++ hs)
add_headers h v = v

-- one round, on what the hook returns, with the loop's later rounds
abbrev pub judge : Result HookResult → Verdict → Verdict
judge (err e) rest = fail e
judge (ok r) rest = if r.reject then reject (reply r.code r.text) else add_headers r.headers rest

unfoldable pub run_from_hooks :
    List (Bool → Bytes → Address → Result HookResult) → Bool → Bytes → Address → Verdict
run_from_hooks [] submission ip from = accept []
run_from_hooks (hook ∷ rest) submission ip from =
    judge (hook submission ip from) (run_from_hooks rest submission ip from)

-- the end of MAIL, behind the hooks
accept_from : Address → Verdict → Action Session
unfolding send
accept_from from (fail e) = raise e
accept_from from (reject r) = send r
accept_from from (accept headers) = λ s. send (reply 250 (codes "noted.")) (record s {
  headers = headers;
  envelope = record s.envelope { from = some from };
  state = s_mail;
})

from_hooks : Config → Address → SizeCheck → Action Session
unfolding accept_from run_from_hooks send
from_hooks cfg from malformed = raise command_syntax
from_hooks cfg from too_big = send (reply 552 (codes "bit too much"))
from_hooks cfg from fits = λ s.
    accept_from from (run_from_hooks cfg.from_hooks (is_submission s) s.conn.remote_addr from) s

-- the body of MAIL, behind the test of the state
mail_from : Config → Command → Action Session
unfolding args parse_address from_hooks parse_int
mail_from cfg c = do
  (arg, params) ← lift (args (codes "FROM") c)
  from ← lift (parse_address cfg.normalizer arg)
  allowed ← (λ s. (may_send s.mailbox (cfg.lookup from), s))
  if allowed
      then from_hooks cfg from (check_params cfg.max_size params)
      else send (reply 530 (codes "that does not sound like you"))

-- mail
unfoldable pub mail : Config → Handler
unfolding mail_from
mail cfg c s = elim s.state [
  | s_helo ↦ mail_from cfg c s
  | s_mail ↦ mail_from cfg c s
  | _ ↦ (err bad_sequence, s)
]

-- May the session send to an address with this entry?
abbrev pub may_receive : Option ℕ → Option Entry → Bool
may_receive mailbox none = false
may_receive none (some e) = not (is_remote e.kind)
may_receive (some m) (some e) = true

add_recipient : Address → Action Session
unfolding send
add_recipient to s =
    send (reply 250 (codes "yup, another?")) (record s {
      envelope = record s.envelope { to = s.envelope.to ++ (to ∷ []) };
      state = s_rcpt;
    })

rcpt_to : Config → Command → Action Session
unfolding args parse_address add_recipient
rcpt_to cfg c = do
  (arg, params) ← lift (args (codes "TO") c)
  to ← lift (parse_address cfg.normalizer arg)
  known ← (λ s. (ok (may_receive s.mailbox (cfg.lookup to)), s))
  if known then add_recipient to else send (reply 550 (codes "never heard of that person."))

-- the body of RCPT, behind the test of the state
rcpt_limited : Config → Command → Action Session
unfolding rcpt_to send
rcpt_limited cfg c s =
    if ltb 100 (length s.envelope.to)
    then send (reply 452 (codes "that is quite a crowd already!")) s
    else rcpt_to cfg c s

-- rcpt
unfoldable pub rcpt : Config → Handler
unfolding rcpt_limited
rcpt cfg c s = elim s.state [
  | s_mail ↦ rcpt_limited cfg c s
  | s_rcpt ↦ rcpt_limited cfg c s
  | _ ↦ (err bad_sequence, s)
]

-- starttls
unfoldable pub starttls : Config → Handler
unfolding send upgrade_tls
starttls cfg c s =
    if not cfg.tls_config
    then send (reply 454 (codes "I am afraid, I lost my disguise!")) s
    else if s.conn.is_tls
    then send (reply 454 (codes "what are you afraid of?")) s
    else (do send (reply 220 (codes "ready to go undercover.")); on_conn upgrade_tls) s
