-- ===== src/TextProto/Dot.antt =====
-- internal/textproto/dot.go and the line reader of internal/textproto/reader.go.
-- bufio.Scanner is given by the tokens that it has yet to yield, and the error it then has; the
-- split of the input into tokens is `scan_lines` (bufio.ScanLines), which ends with bufio.ErrTooLong
-- at a line that does not fit in 64 KiB. bufio.Writer is unbounded, and takes every byte.
pub mod Stream
pub mod RoundTrip
use briefmail.Base.{
  ℕ, zero, suc, ◌+◌, Bool, true, false, ◌&&◌, Option, none, some, List, [], ◌∷◌, ◌++◌, ltb, ◌==◌,
  if◌then◌else◌, length, get_elem?, Bytes,
}
use briefmail.Outcome.{Error, eof, token_too_long, Result, ok, err}
use briefmail.TextProto.Io.{Read}

-- '\r', '\n' and '.'
abbrev pub cr : ℕ
cr = 13

abbrev pub lf : ℕ
lf = 10

abbrev pub dot : ℕ
dot = b'.'

-- dropCR of bufio.ScanLines
unfoldable pub drop_cr : Bytes → Bytes
drop_cr [] = []
drop_cr (c ∷ []) = if c == cr then [] else c ∷ []
drop_cr (c ∷ d ∷ cs) = c ∷ drop_cr (d ∷ cs)

-- the last token, which no newline ends
last_token : Bytes → List Bytes
unfolding drop_cr
last_token [] = []
last_token (c ∷ line) = drop_cr (c ∷ line) ∷ []

-- `reader`: the scanner's tokens, and `Err()` once there are no more (nil at the end of input).
pub record Reader : Type 0 where
  pub tokens : List Bytes
  pub fault : Option Error

-- bufio.MaxScanTokenSize, the size of the buffer that a line with its break has to fit in
abbrev pub max_token : ℕ
max_token = 65536

-- bufio.ErrTooLong ends the scan
abbrev pub too_long : Reader
too_long = record { tokens = []; fault = some token_too_long }

-- the next token, if the line fits in the buffer
unfoldable pub token_of : Bytes → Bytes → Reader → Reader
token_of line token rest = elim (ltb (length line) max_token) [
  | true ↦ record rest { tokens = token ∷ rest.tokens }
  | false ↦ too_long
]

at_end : Bytes → Option Error → Reader
unfolding last_token
at_end line fault = elim (ltb (length line) max_token) [
  | true ↦ record { tokens = last_token line; fault = fault }
  | false ↦ too_long
]

-- bufio.Scanner with bufio.ScanLines over all of the input, behind which a read ends with `fault`;
-- `line` is what stands before the place reached.
unfoldable pub scan_from : Bytes → Bytes → Option Error → Reader
unfolding drop_cr at_end token_of
scan_from line [] fault = at_end line fault
scan_from line (c ∷ cs) fault = elim (c == lf) [
  | true ↦ token_of line (drop_cr line) (scan_from [] cs fault)
  | false ↦ scan_from (line ++ c ∷ []) cs fault
]

-- bufio.NewScanner
unfoldable pub scan_lines : Bytes → Option Error → Reader
unfolding scan_from
scan_lines = scan_from []

abbrev pub scan_error : Option Error → Error
scan_error none = eof
scan_error (some e) = e

read_line_of : List Bytes → Reader → Result Bytes × Reader
read_line_of [] r = (err (scan_error r.fault), r)
read_line_of (line ∷ rest) r = (ok line, record r { tokens = rest })

-- (*reader).ReadLine
unfoldable pub read_line : Reader → Result Bytes × Reader
unfolding read_line_of
read_line r = read_line_of r.tokens r

pub data DotState : Type 0 where
  s_start s_cr s_text s_eof : DotState

pub record DotReader : Type 0 where
  pub r : Reader
  pub state : DotState
  pub line : Bytes
  pub i : ℕ

-- (*reader).DotReader
abbrev pub dot_reader : Reader → DotReader
dot_reader r = record { r = r; state = s_start; line = []; i = 0 }

-- `line[0] == '.'`, where there is a `line[0]`
abbrev pub first_is_dot : Bytes → Bool
first_is_dot [] = false
first_is_dot (c ∷ _) = c == dot

text_at : Option ℕ → DotReader → Result ℕ × DotReader
text_at (some c) d = (ok c, record d { i = d.i + 1 })
text_at none d = (ok cr, record d { state = s_cr })

-- `case sText`
text_byte : DotReader → Result ℕ × DotReader
unfolding text_at
text_byte d = text_at (get_elem? d.line d.i) d

-- `case sStart`, on the result of ReadLine
start_byte : Result Bytes → DotReader → Result ℕ × DotReader
unfolding text_byte
start_byte (err e) d = (err e, d)
start_byte (ok line) d =
    if length line == 1 && first_is_dot line
    then (err eof, record d { state = s_eof })
    else text_byte (record d {
      line = line;
      i = if ltb 1 (length line) && first_is_dot line then 1 else 0;
      state = s_text;
    })

read_byte_in : DotState → DotReader → Result ℕ × DotReader
unfolding start_byte read_line
read_byte_in s_start d = let (line, r) = read_line d.r in start_byte line (record d { r = r })
read_byte_in s_text d = text_byte d
read_byte_in s_cr d = (ok lf, record d { state = s_start })
read_byte_in s_eof d = (err eof, d)

-- (*dotReader).readByte
unfoldable pub read_byte : DotReader → Result ℕ × DotReader
unfolding read_byte_in
read_byte d = read_byte_in d.state d

-- the error branch in the loop of Read: an io.EOF behind some bytes is kept for the next call
stopped : Error → Bytes → DotReader → Read DotReader
stopped eof (c ∷ b) d = record { bytes = c ∷ b; error = none; next = d }
stopped e b d = record { bytes = []; error = some e; next = d }

-- the loop of Read: `room` bytes of the buffer are free, `b` are filled
unfoldable pub read_into : ℕ → Bytes → DotReader → Read DotReader
unfolding stopped
read_into zero b d = record { bytes = b; error = none; next = d }
read_into (suc room) b d =
    let (r, d') = read_byte d in
    elim r [ ok c ↦ read_into room (b ++ c ∷ []) d' | err e ↦ stopped e b d' ]

-- (*dotReader).Read, into a buffer of the given length
unfoldable pub read : ℕ → DotReader → Read DotReader
unfolding read_into
read room d = read_into room [] d

-- What the two branches `case sText` and `case sCr` of Write put before the byte, and the state.
write_text : ℕ → Bytes × DotState
write_text c = if c == cr then ([], s_cr) else if c == lf then (cr ∷ [], s_start) else ([], s_text)

-- One round of the loop of (*dotWriter).Write.
unfoldable pub write_byte : DotState → ℕ → Bytes × DotState
unfolding write_text
write_byte s_start c =
    let (before, s) = write_text c in ((if c == dot then dot ∷ [] else []) ++ (before ++ c ∷ []), s)
write_byte s_text c = let (before, s) = write_text c in (before ++ c ∷ [], s)
write_byte s_cr c = (c ∷ [], if c == lf then s_start else s_text)
write_byte s_eof c = (c ∷ [], s_eof)

-- (*dotWriter).Write
unfoldable pub write : DotState → Bytes → Bytes × DotState
unfolding write_byte
write s [] = ([], s)
write s (c ∷ cs) =
    let (out, s') = write_byte s c in let (rest, s'') = write s' cs in (out ++ rest, s'')

-- (*dotWriter).Close
unfoldable pub close : DotState → Bytes
close s_start = dot ∷ cr ∷ lf ∷ []
close s_text = cr ∷ lf ∷ dot ∷ cr ∷ lf ∷ []
close _ = lf ∷ dot ∷ cr ∷ lf ∷ []

-- A text written through a DotWriter and closed.
unfoldable pub encode : Bytes → Bytes
unfolding write close
encode b = let (out, s) = write s_start b in out ++ close s
