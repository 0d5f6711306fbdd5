-- ===== src/Pop3/Proto.antt =====
-- internal/pop3/proto.go
pub mod Effects
pub mod Held
pub mod Release
use briefmail.Base.{
  ℕ, zero, suc, Bool, true, false, Option, none, some, List, [], ◌∷◌, Bytes, codes, equal,
  if◌then◌else◌, length,
}
use briefmail.Outcome.{
  Error, eof, close_session, bad_sequence, invalid_syntax, net_error, Result, ok, err, Exec, Action,
  pure, raise, ◌>>=◌, ◌>>◌,
}
use briefmail.Pop3.Handlers.{
  Handler, user, pass, quit, stat, list, uidl, retr, dele, noop, rset, stls, capa, in_transaction,
}
use briefmail.Pop3.Session.{
  Locks, unlock, Command, parse, Config, Session, SessionState, Reply, positive, negative, on_conn,
  send,
}
use briefmail.Text.{to_upper}
use briefmail.TextProto.Conn.{set_timeout, conn_read_line}

-- The keys of the handler map.
pub data Verb : Type 0 where
  capa_verb user_verb pass_verb stat_verb list_verb uidl_verb retr_verb dele_verb : Verb
  noop_verb rset_verb quit_verb stls_verb : Verb

abbrev keys : List (Bytes × Verb)
keys =
    (codes "CAPA", capa_verb)
    ∷ (codes "USER", user_verb)
    ∷ (codes "PASS", pass_verb)
    ∷ (codes "STAT", stat_verb)
    ∷ (codes "LIST", list_verb)
    ∷ (codes "UIDL", uidl_verb)
    ∷ (codes "RETR", retr_verb)
    ∷ (codes "DELE", dele_verb)
    ∷ (codes "NOOP", noop_verb)
    ∷ (codes "RSET", rset_verb)
    ∷ (codes "QUIT", quit_verb)
    ∷ (codes "STLS", stls_verb)
    ∷ []

find_verb : List (Bytes × Verb) → Bytes → Option Verb
find_verb [] head = none
find_verb ((key, v) ∷ rest) head = if equal key head then some v else find_verb rest head

-- `p.handlerMap[string(bytes.ToUpper(cmd.head))]`
unfoldable pub verb_of : Bytes → Option Verb
unfolding find_verb to_upper equal
verb_of head = find_verb keys (to_upper head)

-- the handlers of New
unfoldable pub handler : Config → Verb → Handler
handler cfg capa_verb = capa (codes "USER" ∷ codes "UIDL" ∷ [])
handler cfg user_verb = user
handler cfg pass_verb = pass cfg
handler cfg stat_verb = stat
handler cfg list_verb = list
handler cfg uidl_verb = uidl cfg
handler cfg retr_verb = retr
handler cfg dele_verb = dele
handler cfg noop_verb = noop
handler cfg rset_verb = rset
handler cfg quit_verb = quit
handler cfg stls_verb = stls cfg

-- the switch over the error of a handler
unfoldable pub answer_error : Result (Unit {0}) → Action Session
unfolding send
answer_error (ok _) = pure tt
answer_error (err bad_sequence) = send (negative (codes "bad sequence of commands"))
answer_error (err invalid_syntax) = send (negative (codes "invalid syntax"))
answer_error (err e) = raise e

unfoldable pub dispatch : Config → Option Verb → Command → Action Session
unfolding handler answer_error send
dispatch cfg none c s = send (negative (codes "command not implemented")) s
dispatch cfg (some v) c s = let r = handler cfg v c s in answer_error r.0 r.1

-- (*session).read, as far as the line
unfoldable pub read : Exec Session Bytes
read = on_conn (do set_timeout; conn_read_line)

-- one round of (*Proto).loop
unfoldable pub round : Config → Action Session
unfolding read parse verb_of dispatch
round cfg = do line ← read; dispatch cfg (verb_of (parse line).head) (parse line)

-- (*Proto).loop: the error that ends it. `none` means that the fuel ran out.
unfoldable pub loop : Config → ℕ → Session → Option (Error × Session)
unfolding round
loop cfg zero s = none
loop cfg (suc fuel) s =
    let r = round cfg s in elim r.0 [ ok _ ↦ loop cfg fuel r.1 | err e ↦ some (e, r.1) ]

-- the reply at the end of a session
unfoldable pub farewell : Error → Reply
farewell eof = positive (codes "closing transmission channel")
farewell close_session = positive (codes "closing transmission channel")
farewell (net_error true) = negative (codes "timed out")
farewell e = negative (codes "action aborted: local error in processing")

-- the end of Handle: the lock of the mailbox is given back
unfoldable pub leave : Session → Session
unfolding unlock
leave s = if in_transaction s.state then record s { locks = unlock s.mailbox.id s.locks } else s

finish : Option (Error × Session) → Option Session
unfolding farewell send leave
finish none = none
finish (some (e, s)) = some (leave (send (farewell e) s).1)

-- (*Proto).Handle, on a session that Handle has set up. Each round reads a line, so one round more
-- than there are lines is enough.
unfoldable pub handle : Config → Session → Option Session
unfolding loop finish send
handle cfg s =
    let r = send (positive (codes "ready")) s in
    elim r.0 [ err e ↦ some r.1 | ok _ ↦ finish (loop cfg (suc (length s.conn.reader.tokens)) r.1) ]
