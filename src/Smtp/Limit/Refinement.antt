-- ===== src/Smtp/Limit/Refinement.antt =====
-- A limited reader over a stream is the limited stream, for buffers of any sizes.
use briefmail.Base.{ℕ, ◌-◌, ◌≡◌, Bytes, ltb, if◌then◌else◌, length, take}
use briefmail.Outcome.{Error, reader_limit_reached}
use briefmail.Smtp.Limit.{Limited}
use briefmail.TextProto.Io.{Read, IsStream}

module _ {S : Type 0} (read : ℕ → S → Read S) (R : S → Bytes → Type 0) (Q : S → Type 0) (e : Error)
    (stream : IsStream read R Q e) where
  -- The reader below has `all` left, of which the limit leaves `c`; `e'` is the end.
  pub record Cut (e' : Error) (l : Limited S) (c : Bytes) : Type 0 where
    pub all : Bytes
    pub below : R l.r all
    pub cut : c ≡ take l.n all
    pub end_is : e' ≡ (if ltb (length all) l.n then e else reader_limit_reached)

  -- How it ends: at the limit, with the rest of the bytes unread, or with the reader below.
  pub data Stopped (e' : Error) (l : Limited S) : Type 0 where
    at_limit : e' ≡ reader_limit_reached → (all : Bytes) → R l.r all → Stopped e' l
    at_end : e' ≡ e → Q l.r → Stopped e' l

  abbrev after : ℕ → ℕ → S → Read (Limited S)
  after n room' r = record {
    bytes = (read room' r).bytes;
    error = (read room' r).error;
    next = record { r = (read room' r).next; n = n - length (read room' r).bytes };
  }
