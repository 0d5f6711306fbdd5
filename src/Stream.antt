-- ===== src/Stream.antt =====
-- An io.Reader as a value: the bytes it has to give, and the error that it ends with.
-- TextProto.Dot.Stream and Smtp.Limit show that the readers of the program are such streams.
use briefmail.Base.{ℕ, ◌++◌, if◌then◌else◌, ltb, length, take, Bytes}
use briefmail.Outcome.{Error, eof, Result, ok, err}

pub record Stream : Type 0 where
  pub bytes : Bytes
  pub end : Error

-- bytes.NewReader
abbrev pub of_bytes : Bytes → Stream
of_bytes b = record { bytes = b; end = eof }

-- io.MultiReader of a buffer and a reader
abbrev pub after_bytes : Bytes → Stream → Stream
after_bytes b s = record s { bytes = b ++ s.bytes }

-- io.LimitReader
abbrev pub first : ℕ → Stream → Stream
first n s = if ltb (length s.bytes) n then s else of_bytes (take n s.bytes)

-- io.Copy: all bytes, or the error that is not io.EOF
abbrev pub read_all : Stream → Result Bytes
read_all s = elim s.end [ eof ↦ ok s.bytes | e ↦ err e ]
