-- ===== src/TextProto/Conn/Lines.antt =====
-- How many lines the operations of a connection leave to read.
use native.Mathlib.Nat.{le_refl}
use briefmail.Base.{
  ◌≤◌, ◌<◌, ◌≡◌, Bool-cases, Option-cases, inl, inr, List, [], ◌∷◌, Bytes, length, Option, arith,
}
use briefmail.Outcome.{Error, ok, head_fault, tail_faults, ◌>>◌}
use briefmail.TextProto.Conn.{Conn, set_timeout, upgrade_tls, conn_read_line}
use briefmail.TextProto.Dot.{read_line}
use briefmail.TextProto.Dot.Stream.{is_end, block_rest}

-- UpgradeTLS leaves the lines as they are, and so do all calls but ReadLine and the dot reader's.
pub upgrade_tls-tokens : (c : Conn) → (upgrade_tls c).1.reader ≡ c.reader
unfolding upgrade_tls
upgrade_tls-tokens c = ground arith

read_line-at :
    (tokens : List Bytes) (fault : Option Error)
    → length (read_line (record { tokens = tokens; fault = fault })).1.tokens ≤ length tokens
unfolding read_line
read_line-at [] fault = omega arith
read_line-at (l ∷ ls) fault = omega arith

pub read_line-lines :
    (c : Conn) → length (conn_read_line c).1.reader.tokens ≤ length c.reader.tokens
read_line-lines c = read_line-at c.reader.tokens c.reader.fault

read_line-ok_at :
    (tokens : List Bytes) (fault : Option Error) (line : Bytes)
    → (read_line (record { tokens = tokens; fault = fault })).0 ≡ ok line
    → length (read_line (record { tokens = tokens; fault = fault })).1.tokens < length tokens
unfolding read_line
read_line-ok_at [] fault line h = cc
read_line-ok_at (l ∷ ls) fault line h = omega arith

-- A line that was read is a line less.
pub read_line-ok :
    (c : Conn) (line : Bytes)
    → (conn_read_line c).0 ≡ ok line
    → length (conn_read_line c).1.reader.tokens < length c.reader.tokens
read_line-ok c line h = read_line-ok_at c.reader.tokens c.reader.fault line h

-- the same of a line that is read with a deadline
pub timed_read-lines :
    (c : Conn)
    → length ((do set_timeout; conn_read_line) c).1.reader.tokens ≤ length c.reader.tokens
timed_read-lines c = elim (Option-cases (head_fault c.faults)) [
  | inl through ↦ rw through (read_line-lines (record c { faults = tail_faults c.faults }))
  | inr (e, fault) ↦ rw fault (le_refl (length c.reader.tokens))
]

pub timed_read-ok :
    (c : Conn) (line : Bytes)
    → ((do set_timeout; conn_read_line) c).0 ≡ ok line
    → length ((do set_timeout; conn_read_line) c).1.reader.tokens < length c.reader.tokens
timed_read-ok c line p = elim (Option-cases (head_fault c.faults)) [
  | inl through ↦
      rw through (read_line-ok (record c { faults = tail_faults c.faults }) line (rw through at p))
  | inr (e, fault) ↦ cc
]

pub block_rest-le : (ls : List Bytes) → length (block_rest ls) ≤ length ls
block_rest-le [] = omega arith
block_rest-le (l ∷ ls) = elim (Bool-cases (is_end l)) [
  | inl done ↦ rw done (omega arith)
  | inr more ↦ rw more (omega (arith, block_rest-le ls))
]
