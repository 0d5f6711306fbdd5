-- ===== src/Pop3/Handlers.antt =====
-- internal/pop3/handler.go
pub mod Tally
pub mod Marks
pub mod Quiet
pub mod Listing
pub mod Calm
pub mod Effect
pub mod Leak
pub mod Removal
pub mod Retrieve
pub mod Login
use briefmail.Base.{
  ℕ, zero, suc, ◌+◌, ◌-◌, Bool, true, false, ◌||◌, not, Option, none, some, List, [], ◌∷◌, ◌++◌,
  Bytes, codes, any, ◌==◌, if◌then◌else◌, length, get_elem?,
}
use briefmail.Outcome.{
  close_session, bad_sequence, invalid_syntax, panic, Result, ok, err, Exec, Action, pure, raise,
  of_option, ◌>>=◌, ◌>>◌,
}
use briefmail.Pop3.Session.{
  Locks, lock, Command, args, Reply, positive, negative, SessionState, s_init, s_user,
  s_transaction, Mailbox, Config, Session, on_conn, on_store, on_session_db, on_session_blobs, send,
}
use briefmail.Storage.Blobs
use briefmail.Storage.Cleaner.{Store, clean}
use briefmail.Storage.Db
use briefmail.Storage.Db.{Entry, authenticate, delete_entries}
use briefmail.Stream.{Stream, read_all}
use briefmail.Text.{ℤ, pos, negsuc, parse_int, itoa}
use briefmail.TextProto.Conn.{Conn, write_string, end_line, flush, upgrade_tls}
use briefmail.TextProto.Dot.{encode}

abbrev pub Handler : Type 0
Handler = Command → Action Session

-- the test of the state at the head of a handler
abbrev only_in : (SessionState → Bool) → Action Session → Action Session
only_in allowed m s = if allowed s.state then m s else (err bad_sequence, s)

abbrev pub in_transaction : SessionState → Bool
in_transaction s_transaction = true
in_transaction _ = false

abbrev before_transaction : SessionState → Bool
before_transaction s_transaction = false
before_transaction _ = true

abbrev pub in_user : SessionState → Bool
in_user s_user = true
in_user _ = false

take_name : List Bytes → Action Session
unfolding send
take_name (name ∷ []) =
    λ s. send (positive (codes "now the secret")) (record s { name = name; state = s_user })
take_name _ = raise invalid_syntax

-- user
unfoldable pub user : Handler
unfolding take_name args
user c = only_in before_transaction (take_name (args c))

-- the end of PASS, with the lock taken. After an error of Entries, which ends the session, the list
-- and its size stand for whatever was read.
open_mailbox : ℕ → Action Session
unfolding send
open_mailbox id = do
  (entries, size) ← on_session_db (Db.entries id)
  λ s. send (positive (codes "I knew it was you!")) (record s {
    mailbox = record s.mailbox { id = id; marks = []; entries = entries; size = size };
    state = s_transaction;
  })

lock_mailbox : ℕ × Bool → Action Session
unfolding lock open_mailbox send
lock_mailbox (id, false) s = send (negative (codes "nice try")) s
lock_mailbox (id, true) s =
    let (free, l) = lock id s.locks in
    if free
    then open_mailbox id (record s { locks = l })
    else send (negative (codes "there is two of you?")) s

log_in : Config → List Bytes → Action Session
unfolding authenticate lock_mailbox
log_in cfg (secret ∷ []) =
    λ s. (do found ← on_session_db (authenticate cfg.bcrypt s.name secret); lock_mailbox found) s
log_in cfg _ = raise invalid_syntax

-- pass
unfoldable pub pass : Config → Handler
unfolding log_in args
pass cfg c = only_in in_user (log_in cfg (args c))

-- the mails of the marked entries; no mark is out of range
abbrev pub marked_mails : List Entry → List ℕ → Option (List ℕ)
marked_mails entries [] = some []
marked_mails entries (n ∷ ns) = elim (get_elem? entries n) [
  | none ↦ none
  | some e ↦ elim (marked_mails entries ns) [ none ↦ none | some ms ↦ some (e.mail_id ∷ ms) ]
]

-- an error of Clean is logged only
abbrev ignoring : Action Session → Action Session
ignoring m s = (ok tt, (m s).1)

-- quit; the marks come in any order from the map, here in that of the commands, last first
unfoldable pub quit : Handler
unfolding delete_entries clean
quit c s =
    if in_transaction s.state
    then (do
      mails ← of_option panic (marked_mails s.mailbox.entries s.mailbox.marks)
      on_session_db (delete_entries mails s.mailbox.id)
      ignoring (on_store clean)
      raise close_session)
        s
    else (err close_session, s)

abbrev two_numbers : ℕ → ℕ → Bytes
two_numbers a b = itoa a ++ (codes " " ++ itoa b)

-- stat
unfoldable pub stat : Handler
unfolding send itoa
stat c =
    only_in in_transaction
      λ s. send (positive (two_numbers (length s.mailbox.entries) s.mailbox.size)) s

abbrev pub is_marked : List ℕ → ℕ → Bool
is_marked marks n = any (λ m. m == n) marks

-- The entry at a number that was parsed and decremented, with its index, unless it is out of range
-- or marked.
abbrev pub entry_at : Mailbox → ℕ → Option (ℕ × Entry)
entry_at m n = elim (get_elem? m.entries n) [
  | none ↦ none
  | some e ↦ if is_marked m.marks n then none else some (n, e)
]

-- `n--` and the test behind it
unfoldable pub find_entry : Mailbox → ℤ → Option (ℕ × Entry)
find_entry m (pos (suc n)) = entry_at m n
find_entry m (pos zero) = none
find_entry m (negsuc n) = none

no_message : Action Session
unfolding send
no_message = send (negative (codes "no such message"))

-- what LIST, UIDL, RETR and DELE do with a number
abbrev with_entry : (ℕ × Entry → Action Session) → Bytes → Action Session
with_entry f arg = do
  n ← of_option invalid_syntax (parse_int arg)
  λ s. elim (find_entry s.mailbox n) [ none ↦ no_message s | some p ↦ f p s ]

-- the loop over the entries from number `i` on, with what is shown of each
list_lines : (Entry → Bytes) → List ℕ → ℕ → List Entry → Conn → Conn
unfolding itoa
list_lines show marks i [] c = c
list_lines show marks i (e ∷ es) c = list_lines show marks (suc i) es (
    if is_marked marks i
    then c
    else end_line (write_string (itoa (suc i) ++ (codes " " ++ show e)) c))

-- the list of LIST and UIDL, behind a reply whose error is not looked at
list_all : Reply → (Entry → Bytes) → Action Session
unfolding send list_lines
list_all r show s =
    let s' = (send r s).1 in
    on_conn
      (λ c. flush (
        end_line
          (write_string (codes ".") (list_lines show s'.mailbox.marks 0 s'.mailbox.entries c))))
      s'

abbrev by_args : Action Session → (Bytes → Action Session) → List Bytes → Action Session
by_args all one [] = all
by_args all one (arg ∷ []) = one arg
by_args all one _ = raise invalid_syntax

list_header : Mailbox → Bytes
unfolding itoa
list_header m =
    itoa (length m.entries - length m.marks)
    ++ (codes " messages (" ++ (itoa (m.size - m.size_del) ++ codes " octets)"))

-- list: the number in the reply on one entry is that of the code, one less than in the command
unfoldable pub list : Handler
unfolding list_all list_header no_message find_entry parse_int itoa send args
list c = only_in in_transaction (
    by_args (λ s. list_all (positive (list_header s.mailbox)) (λ e. itoa e.size) s)
      (with_entry λ p. send (positive (two_numbers p.0 p.1.size))) (args c))

-- uidl
unfoldable pub uidl : Config → Handler
unfolding list_all no_message find_entry parse_int itoa send args
uidl cfg c = only_in in_transaction (
    by_args (list_all (positive (codes "list follows")) (λ e. cfg.show_id e.mail_id))
      (with_entry λ p. send (positive (itoa p.0 ++ (codes " " ++ cfg.show_id p.1.mail_id))))
      (args c))

abbrev one_arg : (Bytes → Action Session) → List Bytes → Action Session
one_arg f (arg ∷ []) = f arg
one_arg f _ = raise invalid_syntax

-- the error of io.Copy
abbrev copy_result : Result Bytes → Result (Unit {0})
copy_result (ok _) = ok tt
copy_result (err e) = err e

-- io.Copy of the mail to a DotWriter, whose error is returned; those of Close and Flush are not
-- looked at.
write_mail : Stream → Action Conn
unfolding encode
write_mail r c = (copy_result (read_all r), (flush (write_string (encode r.bytes) c)).1)

send_mail : ℕ × Entry → Action Session
unfolding send write_mail Blobs.read
send_mail (n, e) = do
  send (positive (codes "message coming"))
  r ← on_session_blobs (Blobs.read e.mail_id)
  on_conn (write_mail r)

-- retr
unfoldable pub retr : Handler
unfolding send_mail no_message find_entry parse_int args
retr c = only_in in_transaction (one_arg (with_entry send_mail) (args c))

mark : ℕ × Entry → Action Session
unfolding send
mark (n, e) s = send (positive (codes "woosh")) (record s {
  mailbox = record s.mailbox {
    marks = n ∷ s.mailbox.marks;
    size_del = s.mailbox.size_del + e.size;
  };
})

-- dele
unfoldable pub dele : Handler
unfolding mark no_message find_entry parse_int args
dele c = only_in in_transaction (one_arg (with_entry mark) (args c))

-- noop
unfoldable pub noop : Handler
unfolding send
noop c = send (positive (codes "what did you expect?"))

abbrev unmark : Mailbox → Mailbox
unmark m = elim m.marks [ [] ↦ m | _ ↦ record m { marks = []; size_del = 0 } ]

-- rset
unfoldable pub rset : Handler
unfolding send
rset c = only_in in_transaction λ s.
    send (positive (codes "lost some intel during time travel"))
      (record s { mailbox = unmark s.mailbox })

-- stls
unfoldable pub stls : Config → Handler
unfolding send upgrade_tls
stls cfg c s =
    if not cfg.tls_config
    then send (negative (codes "I am afraid, I lost my disguise!")) s
    else if s.conn.is_tls
    then send (negative (codes "what are you afraid of?")) s
    else (do send (positive (codes "ready to go undercover.")); on_conn upgrade_tls) s

capability_lines : List Bytes → Conn → Conn
capability_lines [] c = c
capability_lines (x ∷ xs) c = capability_lines xs (end_line (write_string x c))

-- capa
unfoldable pub capa : List Bytes → Handler
unfolding send capability_lines
capa capabilities c = do
  send (positive (codes "I can do some things"))
  on_conn (λ k. flush (end_line (write_string (codes ".") (capability_lines capabilities k))))
