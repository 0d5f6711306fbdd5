-- ===== src/TextProto/Conn.antt =====
-- internal/textproto/conn.go, writer.go, and the connection that they wrap.
pub mod Lines
pub mod Remote
use briefmail.Base.{
  ℕ, zero, suc, ◌+◌, ◌/◌, ◌%◌, Bool, true, false, Option, none, some, [], ◌∷◌, ◌++◌, Bytes, codes,
  ltb, if◌then◌else◌,
}
use briefmail.Outcome.{
  Error, already_tls, Result, ok, err, Exec, Action, pure, ◌>>=◌, ◌>>◌, Faults, head_fault,
  tail_faults,
}
use briefmail.TextProto.Dot.{Reader, read_line}

-- `out` is all that was handed to the Writer. `faults` has one place for each call of
-- SetDeadline, Flush and Handshake.
pub record Conn : Type 0 where
  pub reader : Reader
  pub out : Bytes
  pub is_tls : Bool
  pub remote_addr : Bytes
  pub faults : Faults

abbrev status : Option Error → Result (Unit {0})
status none = ok tt
status (some e) = err e

abbrev pub call : Action Conn
call c = (status (head_fault c.faults), record c { faults = tail_faults c.faults })

-- SetReadTimeout, SetWriteTimeout; the deadline itself shows only in what the calls return
abbrev pub set_timeout : Action Conn
set_timeout = call

-- (*writer).WriteString, whose error the callers leave to Flush
abbrev pub write_string : Bytes → Conn → Conn
write_string s c = record c { out = c.out ++ s }

abbrev pub crlf : Bytes
crlf = 13 ∷ 10 ∷ []

-- (*writer).Endline
abbrev pub end_line : Conn → Conn
end_line c = write_string crlf c

-- (*writer).Flush
abbrev pub flush : Action Conn
flush = call

-- (*reader).ReadLine
abbrev pub conn_read_line : Exec Conn Bytes
conn_read_line c = let r = read_line c.reader in (r.0, record c { reader = r.1 })

-- (*conn).UpgradeTLS
unfoldable pub upgrade_tls : Action Conn
upgrade_tls c =
    if c.is_tls
    then (err already_tls, c)
    else (do call; λ c'. (ok tt, record c' { is_tls = true })) c
