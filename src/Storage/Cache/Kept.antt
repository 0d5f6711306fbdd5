-- ===== src/Storage/Cache/Kept.antt =====
-- An entry of the Cache, from Write to Release, on a file system that works.
use briefmail.Base.{
  ℕ, ◌≡◌, refl, false, inl, inr, Bool-cases, [], Bytes, ltb, length, take, take-append-drop,
  length-take, arith,
}
use briefmail.Outcome.{ok}
use briefmail.Storage.Cache.{Cache, CacheEntry, memory, file, write, write_file, reader, release}
use briefmail.Stream.{of_bytes}

abbrev pub disk : ℕ → Cache
disk limit = record { memory_limit = limit; faults = [] }

pub record Kept (limit : ℕ) (bytes : Bytes) : Type 0 where
  pub entry : CacheEntry
  pub written : write (of_bytes bytes) (disk limit) ≡ (ok entry, disk limit)
  pub read_back : reader entry (disk limit) ≡ (ok (of_bytes bytes), disk limit)
  pub released : release entry (disk limit) ≡ (ok tt, disk limit)

full :
    (limit : ℕ) (bytes : Bytes)
    → ltb (length bytes) limit ≡ false
    → ltb (length (take limit bytes)) limit ≡ false
full limit bytes h = ground (arith, length-take limit bytes)

pub of_bytes-Kept : (limit : ℕ) (bytes : Bytes) → Kept limit bytes
unfolding write reader release write_file
of_bytes-Kept limit bytes = elim (Bool-cases (ltb (length bytes) limit)) [
  | inl short ↦ record {
    entry = memory bytes;
    written = rw (short, write, short) refl;
    read_back = refl;
    released = refl;
  }
  | inr long ↦ record {
    entry = file bytes;
    written = rw (long, write, full limit bytes long, take-append-drop limit bytes) refl;
    read_back = refl;
    released = refl;
  }
]
