-- ===== src/Storage/Blobs/Write.antt =====
-- What Write leaves in the file system.
use briefmail.Base.{ℕ, ◌≡◌, refl, true, false, Option, none, some, Bytes, length, ◌==◌, arith}
use briefmail.Outcome.{Error, Result, ok, err, head_fault, tail_faults}
use briefmail.Outcome.Ends.{Ends, ok-Ends}
use briefmail.Storage.Blobs.{Blobs, write, copied, copy_failed, new_id}
use briefmail.Stream.{Stream, read_all}

-- The blob that was written: all that the reader gave, and no other file is changed.
pub record Written (r : Stream) (b : Blobs) (id size : ℕ) (b' : Blobs) : Type 0 where
  pub bytes : Bytes
  pub all_read : read_all r ≡ ok bytes
  pub fresh : id ≡ b.ids b.drawn
  pub stored : b'.files id ≡ some bytes
  pub measured : size ≡ length bytes
  pub others : (j : ℕ) → (id == j) ≡ false → b'.files j ≡ b.files j

self : (n : ℕ) → (n == n) ≡ true
self n = ground arith

pub write-Ends : (r : Stream) (b : Blobs) → Ends (λ p. Written r b p.0 p.1) (write r b)
unfolding write copied copy_failed new_id
write-Ends r b = by_create (head_fault b.faults) refl
  where
    by_close :
        (f g : Option Error) (x : Result Bytes)
        → head_fault b.faults ≡ none
        → head_fault (tail_faults b.faults) ≡ none
        → read_all r ≡ x
        → head_fault (tail_faults (tail_faults b.faults)) ≡ g
        → Ends (λ p. Written r b p.0 p.1) (write r b)
    by_close f g (err e) p q x c = rw (p, write, q, copied, x) (record { holds = λ a q. cc })
    by_close f (some e) (ok bytes) p q x c =
        rw (p, write, q, copied, x, c) (record { holds = λ a q. cc })
    by_close f none (ok bytes) p q x c =
        rw (p, write, q, copied, x, c)
          (ok-Ends (λ p. Written r b p.0 p.1) (b.ids b.drawn, length bytes) _
            (record {
              bytes = bytes;
              all_read = x;
              fresh = refl;
              stored = rw (self (b.ids b.drawn)) refl;
              measured = refl;
              others = λ j ne. rw ne refl;
            }))

    by_copy :
        (f : Option Error)
        → head_fault b.faults ≡ none
        → head_fault (tail_faults b.faults) ≡ f
        → Ends (λ p. Written r b p.0 p.1) (write r b)
    by_copy (some e) p q = rw (p, write, q, copied) (record { holds = λ a q. cc })
    by_copy none p q =
        by_close none (head_fault (tail_faults (tail_faults b.faults))) (read_all r) p q refl refl

    by_create :
        (f : Option Error) → head_fault b.faults ≡ f → Ends (λ p. Written r b p.0 p.1) (write r b)
    by_create (some e) p = rw (p, write) (record { holds = λ a q. cc })
    by_create none p = by_copy (head_fault (tail_faults b.faults)) p refl
