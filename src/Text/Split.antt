-- ===== src/Text/Split.antt =====
-- strings.Split of what was joined.
use briefmail.Base.{
  ℕ, ◌≡◌, sym, ap, true, false, Bool-cases, inl, inr, [], ◌∷◌, ◌++◌, append_assoc, append-nil,
  Bytes, ◌==◌, any, arith,
}
use briefmail.Text.{split, split_from}

equal_self : (c : ℕ) → (c == c) ≡ true
equal_self c = ground arith

split_from-part :
    (c : ℕ) (word p rest : Bytes)
    → any (λ x. x == c) p ≡ false
    → split_from c word (p ++ (c ∷ rest)) ≡ (word ++ p) ∷ split_from c [] rest
unfolding split_from
split_from-part c word [] rest h =
    rw (split_from, equal_self c) (ap (λ w. w ∷ split_from c [] rest) (sym (append-nil word)))
split_from-part c word (x ∷ p) rest h = elim (Bool-cases (x == c)) [
  | inl is ↦ cc (rw is at h)
  | inr is_not ↦
      rw (split_from, is_not, sym (append_assoc word (x ∷ []) p))
        (split_from-part c (word ++ (x ∷ [])) p rest (rw is_not at h))
]

split_from-last :
    (c : ℕ) (word p : Bytes) → any (λ x. x == c) p ≡ false → split_from c word p ≡ (word ++ p) ∷ []
unfolding split_from
split_from-last c word [] h = ap (λ w. w ∷ []) (sym (append-nil word))
split_from-last c word (x ∷ p) h = elim (Bool-cases (x == c)) [
  | inl is ↦ cc (rw is at h)
  | inr is_not ↦
      rw (split_from, is_not, sym (append_assoc word (x ∷ []) p))
        (split_from-last c (word ++ (x ∷ [])) p (rw is_not at h))
]

-- The first part, up to the separator.
pub split-part :
    (c : ℕ) (p rest : Bytes)
    → any (λ x. x == c) p ≡ false
    → split c (p ++ (c ∷ rest)) ≡ p ∷ split c rest
unfolding split
split-part c p rest h = split_from-part c [] p rest h

-- A text without the separator is one part.
pub split-last : (c : ℕ) (p : Bytes) → any (λ x. x == c) p ≡ false → split c p ≡ p ∷ []
unfolding split
split-last c p h = split_from-last c [] p h
