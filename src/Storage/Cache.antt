-- ===== src/Storage/Cache.antt =====
-- internal/storage/cache.go: a reader is kept in memory while it is short, and in a file otherwise.
pub mod RoundTrip
pub mod Kept
use briefmail.Base.{
  ℕ, ◌≡◌, refl, ap, ◌∙◌, inl, inr, Bool-cases, Option, none, some, Bytes, ◌++◌, ltb, if◌then◌else◌,
  length, take, drop, take-append-drop, arith,
}
use briefmail.Outcome.{
  Error, eof, Result, ok, err, Exec, Action, pure, ◌>>=◌, ◌>>◌, Faults, head_fault, tail_faults,
}
use briefmail.Stream.{Stream, of_bytes, after_bytes, first, read_all}

pub record Cache : Type 0 where
  pub memory_limit : ℕ
  pub faults : Faults

-- CacheEntry: the buffer, or the content of the file
pub data CacheEntry : Type 0 where
  memory : Bytes → CacheEntry
  file : Bytes → CacheEntry

abbrev status : Option Error → Result (Unit {0})
status none = ok tt
status (some e) = err e

-- a call of the file system may fail
abbrev call : Action Cache
call c = (status (head_fault c.faults), record c { faults = tail_faults c.faults })

-- what the reader has to give behind its first bytes
abbrev pub behind : ℕ → Stream → Stream
behind n r = record r { bytes = drop n r.bytes }

-- the file's part of Write: `head` are the bytes that the memory holds
write_file : Bytes → Stream → Exec Cache CacheEntry
write_file head r = do
  call
  content ← (λ c. (read_all (after_bytes head r), c))
  pure (file content)

-- (*Cache).Write
unfoldable pub write : Stream → Exec Cache CacheEntry
unfolding write_file
write r c =
    (do
      head ← (λ c'. (read_all (first c.memory_limit r), c'))
      if ltb (length head) c.memory_limit
          then pure (memory head)
          else write_file head (behind c.memory_limit r))
      c

-- (*CacheEntry).Reader
unfoldable pub reader : CacheEntry → Exec Cache Stream
reader (memory bytes) = pure (of_bytes bytes)
reader (file content) = do call; pure (of_bytes content)

-- (*CacheEntry).Release
unfoldable pub release : CacheEntry → Action Cache
release (memory bytes) = pure tt
release (file content) = do call; call
