-- ===== src/Storage/Cache/RoundTrip.antt =====
-- What the Cache gives back.
use briefmail.Base.{
  ℕ, ◌≡◌, refl, ◌⊎◌, inl, inr, true, false, Bool-cases, [], Bytes, ◌++◌, ltb, length, take, drop,
  take-append-drop, length-take, arith,
}
use briefmail.Outcome.{Error, eof, err, Exec, ◌>>=◌}
use briefmail.Storage.Cache.{Cache, write, write_file, reader}
use briefmail.Stream.{Stream, read_all}

-- a mail that is written, and read as often as a hook or the delivery does
abbrev through : Stream → Exec Cache Bytes
through r = do e ← write r; s ← reader e; λ c. (read_all s, c)

-- A reader ends with io.EOF, or read_all fails.
end-cases :
    (e : Error)
    → (e ≡ eof) ⊎ ((bytes : Bytes) → read_all (record { bytes = bytes; end = e }) ≡ err e)
end-cases eof = inl refl
end-cases _ = inr (λ bytes. refl)

through_short :
    (limit : ℕ) (bytes : Bytes) (end : Error)
    → ltb (length bytes) limit ≡ true
    → (through
        (record { bytes = bytes; end = end })
        (record { memory_limit = limit; faults = [] })).0
      ≡ read_all (record { bytes = bytes; end = end })
unfolding write reader write_file
through_short limit bytes end short = elim (end-cases end) [
  | inl clean ↦ rw (short, clean, write, short) refl
  | inr broken ↦ rw (short, broken bytes) refl
]

full :
    (limit : ℕ) (bytes : Bytes)
    → ltb (length bytes) limit ≡ false
    → ltb (length (take limit bytes)) limit ≡ false
full limit bytes h = ground (arith, length-take limit bytes)

through_long :
    (limit : ℕ) (bytes : Bytes) (end : Error)
    → ltb (length bytes) limit ≡ false
    → (through
        (record { bytes = bytes; end = end })
        (record { memory_limit = limit; faults = [] })).0
      ≡ read_all (record { bytes = bytes; end = end })
unfolding write reader write_file
through_long limit bytes end long = elim (end-cases end) [
  | inl clean ↦ rw (long, clean, full limit bytes long, take-append-drop limit bytes) refl
  | inr broken ↦
      rw (long, full limit bytes long, broken (take limit bytes ++ drop limit bytes), broken bytes)
        refl
]

-- With a file system that works, an entry of the cache reads as the reader that was written, however
-- many bytes fit into memory; and the write fails when the reader does.
pub write-reader :
    (limit : ℕ) (r : Stream)
    → ((do e ← write r; s ← reader e; λ c. (read_all s, c))
        (record { memory_limit = limit; faults = [] })).0
      ≡ read_all r
write-reader limit r = elim (Bool-cases (ltb (length r.bytes) limit)) [
  | inl short ↦ through_short limit r.bytes r.end short
  | inr long ↦ through_long limit r.bytes r.end long
]
