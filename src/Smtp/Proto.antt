-- ===== src/Smtp/Proto.antt =====
-- internal/smtp/proto.go
pub mod Invariant
use briefmail.Base.{
  ℕ, zero, suc, ◌+◌, Bool, true, false, Option, none, some, List, [], ◌∷◌, ◌++◌, Bytes, codes,
  equal, if◌then◌else◌, length,
}
use briefmail.Outcome.{
  Error, eof, close_session, bad_sequence, command_syntax, invalid_address_format, path_too_long,
  Result, ok, err, Exec, Action, pure, raise, ◌>>=◌, ◌>>◌,
}
use briefmail.Smtp.Auth.{auth}
use briefmail.Smtp.Command.{Command, parse}
use briefmail.Smtp.Data.{data_handler}
use briefmail.Smtp.Handlers.{Handler, helo, ehlo, noop, rset, vrfy, quit, mail, rcpt, starttls}
use briefmail.Smtp.Session.{Config, Session, Reply, reply, send, read}
use briefmail.Text.{itoa, to_upper}

-- The keys of the handler map.
pub data Verb : Type 0 where
  helo_verb ehlo_verb mail_verb rcpt_verb data_verb noop_verb rset_verb vrfy_verb : Verb
  quit_verb starttls_verb auth_verb : Verb

abbrev keys : List (Bytes × Verb)
keys =
    (codes "HELO", helo_verb)
    ∷ (codes "EHLO", ehlo_verb)
    ∷ (codes "MAIL", mail_verb)
    ∷ (codes "RCPT", rcpt_verb)
    ∷ (codes "DATA", data_verb)
    ∷ (codes "NOOP", noop_verb)
    ∷ (codes "RSET", rset_verb)
    ∷ (codes "VRFY", vrfy_verb)
    ∷ (codes "QUIT", quit_verb)
    ∷ (codes "STARTTLS", starttls_verb)
    ∷ (codes "AUTH", auth_verb)
    ∷ []

find_verb : List (Bytes × Verb) → Bytes → Option Verb
find_verb [] head = none
find_verb ((key, v) ∷ rest) head = if equal key head then some v else find_verb rest head

-- `p.handlerMap[string(bytes.ToUpper(cmd.head))]`
unfoldable pub verb_of : Bytes → Option Verb
unfolding find_verb to_upper equal
verb_of head = find_verb keys (to_upper head)

-- the handlers of New
unfoldable pub handler : Config → Verb → Handler
handler cfg helo_verb = helo cfg
handler cfg ehlo_verb = ehlo cfg
handler cfg mail_verb = mail cfg
handler cfg rcpt_verb = rcpt cfg
handler cfg data_verb = data_handler cfg
handler cfg noop_verb = noop
handler cfg rset_verb = rset
handler cfg vrfy_verb = vrfy
handler cfg quit_verb = quit
handler cfg starttls_verb = starttls cfg
handler cfg auth_verb = auth cfg

-- the extensions that New gives to ehlo
abbrev pub extensions_of : ℕ → List Bytes
extensions_of max_size =
    (codes "SIZE " ++ itoa max_size) ∷ codes "STARTTLS" ∷ codes "AUTH PLAIN LOGIN" ∷ []

-- the switch over the error of a handler
unfoldable pub answer_error : Result (Unit {0}) → Action Session
unfolding send
answer_error (ok _) = pure tt
answer_error (err bad_sequence) = send (reply 503 (codes "bad sequence of commands"))
answer_error (err command_syntax) =
    send (reply 501 (codes "syntax error in parameters or arguments"))
answer_error (err invalid_address_format) = send (reply 553 (codes "invalid address format"))
answer_error (err path_too_long) = send (reply 501 (codes "path too long"))
answer_error (err e) = raise e

unfoldable pub dispatch : Config → Option Verb → Command → Action Session
unfolding handler answer_error send
dispatch cfg none c s = send (reply 502 (codes "command not implemented")) s
dispatch cfg (some v) c s = let r = handler cfg v c s in answer_error r.0 r.1

-- one round of (*Proto).loop
unfoldable pub round : Config → Action Session
unfolding read parse verb_of dispatch
round cfg = do line ← read; dispatch cfg (verb_of (parse line).head) (parse line)

-- (*Proto).loop: the error that ends it. `none` means that the fuel ran out.
unfoldable pub loop : Config → ℕ → Session → Option (Error × Session)
unfolding round
loop cfg zero s = none
loop cfg (suc fuel) s =
    let r = round cfg s in elim r.0 [ ok _ ↦ loop cfg fuel r.1 | err e ↦ some (e, r.1) ]

-- the reply at the end of a session
unfoldable pub farewell : Error → Reply
farewell eof = reply 221 (codes "closing transmission channel")
farewell close_session = reply 221 (codes "closing transmission channel")
farewell e = reply 451 (codes "action aborted: local error in processing")

finish : Option (Error × Session) → Option Session
unfolding farewell send
finish none = none
finish (some (e, s)) = some (send (farewell e) s).1

-- (*Proto).Handle, on a session that Handle has set up. Each round reads a line, so one round more
-- than there are lines is enough.
unfoldable pub handle : Config → Session → Option Session
unfolding loop finish send
handle cfg s =
    let r = send (reply 220 (codes "ready")) s in
    elim r.0 [ err e ↦ some r.1 | ok _ ↦ finish (loop cfg (suc (length s.conn.reader.tokens)) r.1) ]
