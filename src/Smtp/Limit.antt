-- ===== src/Smtp/Limit.antt =====
-- internal/smtp/limit.go
pub mod Refinement
use briefmail.Base.{ℕ, ◌-◌, none, some, [], ltb, ◌==◌, if◌then◌else◌, length, take}
use briefmail.Outcome.{Error, reader_limit_reached}
use briefmail.Stream.{Stream}
use briefmail.TextProto.Io.{Read}

-- limitedReader. `n` starts positive, and a reader returns no more bytes than there is room for, so
-- it stops at 0.
pub record Limited (S : Type 0) : Type 0 where
  pub r : S
  pub n : ℕ

-- (*limitedReader).Read, into a buffer of length `room`
unfoldable pub limited_read : {S : Type 0} → (ℕ → S → Read S) → ℕ → Limited S → Read (Limited S)
limited_read read room l =
    let room' = if ltb l.n room then l.n else room in
    let r = read room' l.r in
    if l.n == 0
    then record { bytes = []; error = some reader_limit_reached; next = l }
    else record {
      bytes = r.bytes;
      error = r.error;
      next = record { r = r.next; n = l.n - length r.bytes };
    }

-- The stream that such a reader is: `Refinement` shows it.
abbrev pub limited : ℕ → Stream → Stream
limited n s =
    if ltb (length s.bytes) n
    then s
    else record { bytes = take n s.bytes; end = reader_limit_reached }
