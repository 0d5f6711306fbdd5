-- ===== src/Pop3/Session.antt =====
-- internal/pop3: lock.go, command.go, reply.go and session.go
use briefmail.Base.{
  ℕ, suc, Bool, true, false, Option, none, some, List, [], Bytes, codes, ◌==◌, if◌then◌else◌, take,
  drop,
}
use briefmail.Outcome.{Exec, Action, ◌>>◌}
use briefmail.Storage.Blobs.{Blobs}
use briefmail.Storage.Cleaner.{Store, on_db, on_blobs}
use briefmail.Storage.Db.{Db, Bcrypt, Entry}
use briefmail.Text.{fields, index_byte}
use briefmail.TextProto.Conn.{Conn, set_timeout, write_string, end_line, flush}

-- map[int64]bool of the mailboxes that are open; every access holds the mutex
pub record Locks : Type 0 where
  pub entries : ℕ → Bool

abbrev pub set_lock : (ℕ → Bool) → ℕ → Bool → ℕ → Bool
set_lock entries key value k = if key == k then value else entries k

-- (*locks).lock
unfoldable pub lock : ℕ → Locks → Bool × Locks
lock key l =
    if l.entries key then (false, l) else (true, record { entries = set_lock l.entries key true })

-- (*locks).unlock
unfoldable pub unlock : ℕ → Locks → Locks
unlock key l = record { entries = set_lock l.entries key false }

pub record Command : Type 0 where
  pub head : Bytes
  pub tail : Bytes

parse_at : Option ℕ → Bytes → Command
parse_at none line = record { head = line; tail = [] }
parse_at (some i) line = record { head = take i line; tail = drop (suc i) line }

-- (*command).parse; a tail that is nil is empty
unfoldable pub parse : Bytes → Command
unfolding parse_at index_byte
parse line = parse_at (index_byte b' ' line) line

-- (*command).args
unfoldable pub args : Command → List Bytes
unfolding fields
args c = elim c.tail [ [] ↦ [] | _ ↦ fields c.tail ]

pub record Reply : Type 0 where
  pub ok : Bool
  pub text : Bytes

abbrev pub positive : Bytes → Reply
positive text = record { ok = true; text = text }

abbrev pub negative : Bytes → Reply
negative text = record { ok = false; text = text }

pub data SessionState : Type 0 where
  s_init s_user s_transaction : SessionState

-- The `mailbox` of a session; `marks` are the keys of its map.
pub record Mailbox : Type 0 where
  pub id : ℕ
  pub marks : List ℕ
  pub entries : List Entry
  pub size : ℕ
  pub size_del : ℕ

-- The arguments of New, and the text of a mail's id.
pub record Config : Type 0 where
  pub bcrypt : Bcrypt
  pub tls_config : Bool
  pub show_id : ℕ → Bytes

-- `store` and `locks` are shared with other sessions.
pub record Session : Type 0 where
  pub conn : Conn
  pub state : SessionState
  pub name : Bytes
  pub mailbox : Mailbox
  pub store : Store
  pub locks : Locks

abbrev pub on_conn : {A : Type 0} → Exec Conn A → Exec Session A
on_conn m s = let r = m s.conn in (r.0, record s { conn = r.1 })

abbrev pub on_store : {A : Type 0} → Exec Store A → Exec Session A
on_store m s = let r = m s.store in (r.0, record s { store = r.1 })

abbrev pub on_session_db : {A : Type 0} → Exec Db A → Exec Session A
on_session_db m = on_store (on_db m)

abbrev pub on_session_blobs : {A : Type 0} → Exec Blobs A → Exec Session A
on_session_blobs m = on_store (on_blobs m)

-- (*reply).writeTo
unfoldable pub write_to : Reply → Action Conn
write_to r c = flush (
    end_line (
      write_string r.text
        (write_string (codes " ") (write_string (if r.ok then codes "+OK" else codes "-ERR") c))))

-- (*session).send
unfoldable pub send : Reply → Action Session
unfolding write_to
send r = on_conn (do set_timeout; write_to r)
