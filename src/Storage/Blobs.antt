-- ===== src/Storage/Blobs.antt =====
-- internal/storage/blobs.go over afero, and model.NewID over google/uuid.
pub mod Write
use briefmail.Base.{
  ℕ, zero, suc, ◌+◌, Bool, Option, none, some, Bytes, ltb, ◌==◌, if◌then◌else◌, length, drop, [],
}
use briefmail.Outcome.{
  Error, not_exist, Result, ok, err, Exec, Action, pure, ◌>>=◌, ◌>>◌, Faults, head_fault,
  tail_faults,
}
use briefmail.Stream.{Stream, of_bytes, read_all}

-- `ids` are the values that uuid.New returns, `drawn` of them so far. `faults` has one place for
-- each call of the file system.
pub record Blobs : Type 0 where
  pub files : ℕ → Option Bytes
  pub ids : ℕ → ℕ
  pub drawn : ℕ
  pub faults : Faults

abbrev status : Option Error → Result (Unit {0})
status none = ok tt
status (some e) = err e

-- a call of the file system may fail
abbrev pub call : Action Blobs
call b = (status (head_fault b.faults), record b { faults = tail_faults b.faults })

abbrev pub put_file : (ℕ → Option Bytes) → ℕ → Option Bytes → ℕ → Option Bytes
put_file files id content j = if id == j then content else files j

abbrev set_file : ℕ → Option Bytes → Action Blobs
set_file id content b = (ok tt, record b { files = put_file b.files id content })

-- model.NewID
unfoldable pub new_id : Exec Blobs ℕ
new_id b = (ok (b.ids b.drawn), record b { drawn = suc b.drawn })

abbrev present : Option Bytes → Result (Unit {0})
present none = err not_exist
present (some _) = ok tt

-- (*Blobs).Delete
unfoldable pub delete : ℕ → Action Blobs
delete id = do call; λ b. (present (b.files id), b); set_file id none

-- an error of a call that the code does not look at
abbrev pub ignoring : Action Blobs → Action Blobs
ignoring m b = (ok tt, (m b).1)

-- the end of Write, on what io.Copy has read
copied : ℕ → Result Bytes → Exec Blobs (ℕ × ℕ)
unfolding delete
copied id (err e) = do ignoring (delete id); λ b. (err e, b)
copied id (ok bytes) = do set_file id (some bytes); call; pure (id, length bytes)

copy_failed : ℕ → Option Error → Result Bytes → Result Bytes
copy_failed id none r = r
copy_failed id (some e) r = err e

-- (*Blobs).Write: the id and the size. The calls that may fail are Create, the writes of io.Copy,
-- and Close; a copy that fails has the file removed, a Close that fails has not.
unfoldable pub write : Stream → Exec Blobs (ℕ × ℕ)
unfolding new_id copied copy_failed
write r = do
  id ← new_id
  call
  set_file id (some [])
  λ b.
      copied id (copy_failed id (head_fault b.faults) (read_all r))
        (record b { faults = tail_faults b.faults })

abbrev opened : Option Bytes → Result Bytes
opened none = err not_exist
opened (some bytes) = ok bytes

-- (*Blobs).ReadOffset
unfoldable pub read_offset : ℕ → ℕ → Exec Blobs Stream
read_offset id offset = do
  call
  bytes ← (λ b. (opened (b.files id), b))
  (if ltb 0 offset then call else pure tt)
  pure (of_bytes (drop offset bytes))

-- (*Blobs).Read
unfoldable pub read : ℕ → Exec Blobs Stream
unfolding read_offset
read id = read_offset id 0
