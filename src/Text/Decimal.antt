-- ===== src/Text/Decimal.antt =====
-- The decimal numbers of strconv: what Itoa writes is one word, and ParseInt reads it back.
use briefmail.Base.{
  ℕ, zero, suc, ◌+◌, ◌-◌, ◌*◌, ◌/◌, ◌%◌, ◌^◌, ◌≤◌, ◌<◌, ◌≡◌, ◌≢◌, refl, sym, ap, ◌∙◌, inl, inr,
  true, false, ◌&&◌, Bool-cases, some, [], ◌∷◌, ◌++◌, append-nil, append_assoc, Bytes, ltb, leb,
  ◌==◌, All, arith,
}
use briefmail.Text.{
  itoa, itoa_onto, pos, digits, to_pos, parse_int, fields, fields_from, push_word, space_length,
}

abbrev IsDigit : ℕ → Type 0
IsDigit c = (48 ≤ c) × (c ≤ 57)

in_digits : (k : ℕ) → k < 10 → (leb b'0' (48 + k) && leb (48 + k) b'9') ≡ true
in_digits k h = ground arith

digits-digit :
    (acc c : ℕ) (out : Bytes)
    → (leb b'0' c && leb c b'9') ≡ true
    → digits acc (c ∷ out) ≡ digits (acc * 10 + (c - b'0')) out
unfolding digits
digits-digit acc c out h = rw (h, digits) refl

digits-cons :
    (acc k : ℕ) (out : Bytes) → k < 10 → digits acc ((48 + k) ∷ out) ≡ digits (acc * 10 + k) out
digits-cons acc k out h =
    digits-digit acc (48 + k) out (in_digits k h)
    ∙ ap (λ d. digits (acc * 10 + d) out) (omega arith)

module _ (fuel n : ℕ) (out : Bytes) where
  itoa_onto-last : ltb n 10 ≡ true → itoa_onto (suc fuel) n out ≡ (48 + n % 10) ∷ out
  unfolding itoa_onto
  itoa_onto-last h = rw (h, itoa_onto) refl

  itoa_onto-more :
      ltb n 10 ≡ false → itoa_onto (suc fuel) n out ≡ itoa_onto fuel (n / 10) ((48 + n % 10) ∷ out)
  unfolding itoa_onto
  itoa_onto-more h = rw (h, itoa_onto) refl

-- The digits stand in front of those that are there.
digits-itoa_onto :
    (fuel n : ℕ) (out : Bytes) → n < fuel → digits 0 (itoa_onto fuel n out) ≡ digits n out
digits-itoa_onto zero n out h = elim h [ ]
digits-itoa_onto (suc fuel) n out h = elim (Bool-cases (ltb n 10)) [
  | inl last ↦
      ap (digits 0) (itoa_onto-last fuel n out last)
      ∙ (digits-cons 0 (n % 10) out (omega arith) ∙ ap (λ d. digits d out) (ground arith))
  | inr more ↦
      ap (digits 0) (itoa_onto-more fuel n out more)
      ∙ (digits-itoa_onto fuel (n / 10) _ (ground arith)
          ∙ (digits-cons (n / 10) (n % 10) out (omega arith)
              ∙ ap (λ d. digits d out) (omega arith)))
]

IsDigit-itoa_onto :
    (fuel n : ℕ) (out : Bytes) → All IsDigit out → All IsDigit (itoa_onto fuel n out)
IsDigit-itoa_onto zero n out h = unfold itoa_onto in h
IsDigit-itoa_onto (suc fuel) n out h = elim (Bool-cases (ltb n 10)) [
  | inl last ↦ rw (itoa_onto-last fuel n out last) ((omega arith, omega arith), h)
  | inr more ↦
      rw (itoa_onto-more fuel n out more)
        (IsDigit-itoa_onto fuel (n / 10) _ ((omega arith, omega arith), h))
]

itoa_onto-ne-nil : (fuel n c : ℕ) (cs : Bytes) → itoa_onto fuel n (c ∷ cs) ≢ []
itoa_onto-ne-nil zero n c cs = unfold itoa_onto in λ e. cc
itoa_onto-ne-nil (suc fuel) n c cs = elim (Bool-cases (ltb n 10)) [
  | inl last ↦ rw (itoa_onto-last fuel n (c ∷ cs) last) (λ e. cc)
  | inr more ↦
      rw (itoa_onto-more fuel n (c ∷ cs) more)
        (itoa_onto-ne-nil fuel (n / 10) (48 + n % 10) (c ∷ cs))
]

pub itoa-ne-nil : (n : ℕ) → itoa n ≢ []
itoa-ne-nil n = elim (Bool-cases (ltb n 10)) [
  | inl last ↦ unfold itoa in rw (itoa_onto-last n n [] last) (λ e. cc)
  | inr more ↦
      unfold itoa in rw (itoa_onto-more n n [] more) (itoa_onto-ne-nil n (n / 10) (48 + n % 10) [])
]

signless : (c : ℕ) → IsDigit c → ((c == b'-') ≡ false) × ((c == b'+') ≡ false)
signless c h = (ground arith, ground arith)

to_pos-small : (n : ℕ) → n < 2 ^ 63 → to_pos (some n) ≡ some (pos n)
to_pos-small n h = ground arith

parse_int-digits :
    (ds : Bytes) (n : ℕ)
    → All IsDigit ds
    → digits 0 ds ≡ some n
    → n < 2 ^ 63
    → ds ≢ []
    → parse_int ds ≡ some (pos n)
parse_int-digits [] n h e small full = absurd (full refl)
parse_int-digits (c ∷ cs) n h e small full =
    unfold parse_int in
    rw ((signless c h.0).0, (signless c h.0).1) (ap to_pos e ∙ to_pos-small n small)

-- ParseInt reads what Itoa has written.
pub parse_int-itoa : (n : ℕ) → n < 2 ^ 63 → parse_int (itoa n) ≡ some (pos n)
parse_int-itoa n small =
    parse_int-digits (itoa n) n (unfold itoa in IsDigit-itoa_onto (suc n) n [] tt)
      (unfold itoa in digits-itoa_onto (suc n) n [] (omega arith) ∙ (unfold digits in refl)) small
      (itoa-ne-nil n)

spaceless : (c : ℕ) (cs : Bytes) → IsDigit c → space_length (c ∷ cs) ≡ 0
spaceless c [] h = ground arith
spaceless c (d ∷ []) h = ground arith
spaceless c (d ∷ e ∷ cs) h = ground arith

fields_from-digits :
    (word ds : Bytes) → All IsDigit ds → fields_from 0 word ds ≡ push_word (word ++ ds) []
unfolding fields_from
fields_from-digits word [] h = ap (λ w. push_word w []) (sym (append-nil word))
fields_from-digits word (c ∷ cs) h =
    rw (spaceless c cs h.0, fields_from)
      (fields_from-digits (word ++ (c ∷ [])) cs h.1
        ∙ ap (λ w. push_word w []) (append_assoc word (c ∷ []) cs))

push_word-one : (w : Bytes) → w ≢ [] → push_word w [] ≡ w ∷ []
push_word-one [] h = absurd (h refl)
push_word-one (c ∷ w) h = refl

-- What Itoa has written is one word.
pub fields-itoa : (n : ℕ) → fields (itoa n) ≡ itoa n ∷ []
unfolding fields
fields-itoa n =
    fields_from-digits [] (itoa n) (unfold itoa in IsDigit-itoa_onto (suc n) n [] tt)
    ∙ push_word-one (itoa n) (itoa-ne-nil n)
