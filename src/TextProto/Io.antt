-- ===== src/TextProto/Io.antt =====
-- io.Reader, as the code implements and uses it, and io.Copy.
use briefmail.Base.{
  ℕ, zero, suc, ◌+◌, ◌≤◌, ◌<◌, ◌≡◌, refl, sym, ap, ◌∙◌, Option, none, some, [], ◌++◌, append-nil,
  append_assoc, length, length-append, arith, Bytes,
}
use briefmail.Outcome.{Error, eof, Result, ok, err}

-- What `Read(b)` returns: `b[:n]`, the error, and the reader afterwards.
pub record Read {ℓ} (S : Type ℓ) : Type ℓ where
  pub bytes : Bytes
  pub error : Option Error
  pub next : S

-- io.Copy treats io.EOF as a success
abbrev pub finished : Bytes → Error → Result Bytes
finished out eof = ok out
finished out e = err e

module _ {ℓ} {S : Type ℓ} where
  -- The loop of io.Copy into a buffer, from the k-th call on. The room of each call is the
  -- library's choice, so it is any function. `none` means that the fuel ran out.
  unfoldable pub copy : (ℕ → S → Read S) → (ℕ → ℕ) → ℕ → ℕ → Bytes → S → Option (Result Bytes × S)
  copy read room zero k out s = none
  copy read room (suc fuel) k out s =
      let r = read (room k) s in
      elim r.error [
        | none ↦ copy read room fuel (k + 1) (out ++ r.bytes) r.next
        | some e ↦ some (finished (out ++ r.bytes) e, r.next)
      ]

  -- One call on a reader that has the bytes `c` to give and then ends with `e`. It gives some of
  -- them, or it ends, which it does only when `c` does not fill the room.
  pub data Serves (R : S → Bytes → Type ℓ) (Q : S → Type ℓ) (room : ℕ) (c : Bytes) (e : Error)
      (r : Read S) : Type ℓ where
    gives :
        (rest : Bytes)
        → r.error ≡ none
        → c ≡ r.bytes ++ rest
        → 0 < length r.bytes
        → length r.bytes ≤ room
        → R r.next rest
        → Serves R Q room c e r
    ends :
        r.error ≡ some e
        → r.bytes ≡ []
        → length c < room
        → (e ≡ eof → c ≡ [])
        → Q r.next
        → Serves R Q room c e r

  -- `R s c`: in state `s` the reader has the bytes `c` left; `Q` holds where it has ended with `e`.
  pub record IsStream (read : ℕ → S → Read S) (R : S → Bytes → Type ℓ) (Q : S → Type ℓ) (e : Error)
      : Type ℓ where
    pub serves :
        (room : ℕ) (s : S) (c : Bytes) → 0 < room → R s c → Serves R Q room c e (read room s)

  copy_gives :
      (read : ℕ → S → Read S) (room : ℕ → ℕ) (fuel k : ℕ) (out : Bytes) (s : S)
      → (read (room k) s).error ≡ none
      → copy read room (suc fuel) k out s
        ≡ copy read room fuel (k + 1) (out ++ (read (room k) s).bytes) (read (room k) s).next
  unfolding copy
  copy_gives read room fuel k out s h = rw (h, copy)

  copy_ends :
      (read : ℕ → S → Read S) (room : ℕ → ℕ) (fuel k : ℕ) (out : Bytes) (s : S) (x : Error)
      → (read (room k) s).error ≡ some x
      → (read (room k) s).bytes ≡ []
      → copy read room (suc fuel) k out s ≡ some (finished out x, (read (room k) s).next)
  unfolding copy
  copy_ends read room fuel k out s x h b = rw (h, copy) (rw b (rw append-nil))

finished_all :
    (out c : Bytes) (e : Error) → (e ≡ eof → c ≡ []) → finished out e ≡ finished (out ++ c) e
finished_all out c eof h = rw (h refl) (rw append-nil)
finished_all out c _ h = refl

module _ {ℓ} {S : Type ℓ} (read : ℕ → S → Read S) (R : S → Bytes → Type ℓ) (Q : S → Type ℓ)
    (e : Error) (stream : IsStream read R Q e) (room : ℕ → ℕ)
    (room_pos : (k : ℕ) → 0 < room k) where
  abbrev Copied : ℕ → ℕ → Bytes → Bytes → S → Type ℓ
  Copied fuel k out c s =
      (s' : S) × (copy read room fuel k out s ≡ some (finished (out ++ c) e, s')) × Q s'

  copy_step :
      (fuel k : ℕ) (out c : Bytes) (s : S)
      → ((out' rest : Bytes) (s' : S)
          → length rest < fuel
          → R s' rest
          → Copied fuel (k + 1) out' rest s')
      → length c < suc fuel
      → Serves R Q (room k) c e (read (room k) s)
      → Copied (suc fuel) k out c s
  copy_step fuel k out c s ih h (gives rest none' split pos fits r') =
      let r = read (room k) s in
      let shorter : length rest < fuel =
        omega (arith, ap length split, length-append r.bytes rest) in
      let (s', e', q) = ih (out ++ r.bytes) rest r.next shorter r' in
      (
        s',
        (copy_gives read room fuel k out s none'
            ∙ e'
            ∙ ap (λ t. some (finished t e, s'))
                (append_assoc out r.bytes rest ∙ ap (λ t. out ++ t) (sym split))),
        q,
      )
  copy_step fuel k out c s ih h (ends fails empty short all q) = (
    (read (room k) s).next,
    (copy_ends read room fuel k out s e fails empty
        ∙ ap (λ t. some (t, (read (room k) s).next)) (finished_all out c e all)),
    q,
  )

  -- With more fuel than bytes, io.Copy ends, has moved all bytes of a stream that ends with io.EOF,
  -- and reports the error of any other.
  pub copy-IsStream :
      (fuel k : ℕ) (out c : Bytes) (s : S) → length c < fuel → R s c → Copied fuel k out c s
  copy-IsStream zero k out c s h r = elim h [ ]
  copy-IsStream (suc fuel) k out c s h r =
      copy_step fuel k out c s (λ out' rest s'. copy-IsStream fuel (k + 1) out' rest s') h
        (stream.serves (room k) s c (room_pos k) r)
