-- ===== src/Text.antt =====
-- The functions of Go's bytes, strings, strconv and encoding/base64 that the program calls.
pub mod Base64
pub mod Split
pub mod Decimal
use briefmail.Base.{
  ℕ, zero, suc, ◌+◌, ◌-◌, ◌*◌, ◌/◌, ◌%◌, ◌^◌, Bool, true, false, ◌&&◌, ◌||◌, Option, none, some,
  List, [], ◌∷◌, ◌++◌, Bytes, ltb, leb, ◌==◌, upper_byte, is_space, if◌then◌else◌,
}

-- strconv.Itoa
itoa_onto : ℕ → ℕ → Bytes → Bytes
itoa_onto zero n out = out
itoa_onto (suc fuel) n out =
    let out' = (48 + n % 10) ∷ out in
    elim (ltb n 10) [ true ↦ out' | false ↦ itoa_onto fuel (n / 10) out' ]

unfoldable pub itoa : ℕ → Bytes
unfolding itoa_onto
itoa n = itoa_onto (suc n) n []

-- an int64
pub data ℤ : Type 0 where
  pos : ℕ → ℤ
  negsuc : ℕ → ℤ

digits : ℕ → Bytes → Option ℕ
digits n [] = some n
digits n (c ∷ cs) = elim (leb b'0' c && leb c b'9') [
  | true ↦ digits (n * 10 + (c - b'0')) cs
  | false ↦ none
]

some_digits : Bytes → Option ℕ
unfolding digits
some_digits [] = none
some_digits (c ∷ cs) = digits 0 (c ∷ cs)

abbrev to_pos : Option ℕ → Option ℤ
to_pos none = none
to_pos (some n) = if ltb n (2 ^ 63) then some (pos n) else none

abbrev negated : ℕ → ℤ
negated zero = pos 0
negated (suc n) = negsuc n

abbrev to_neg : Option ℕ → Option ℤ
to_neg none = none
to_neg (some n) = if leb n (2 ^ 63) then some (negated n) else none

-- strconv.ParseInt(s, 10, 64); `none` is an error
unfoldable pub parse_int : Bytes → Option ℤ
unfolding some_digits
parse_int [] = none
parse_int (c ∷ cs) =
    if c == b'-'
    then to_neg (some_digits cs)
    else if c == b'+'
    then to_pos (some_digits cs)
    else to_pos (some_digits (c ∷ cs))

-- bytes.IndexRune of an ASCII byte
unfoldable pub index_byte : ℕ → Bytes → Option ℕ
index_byte c [] = none
index_byte c (x ∷ xs) =
    if x == c then some 0 else elim (index_byte c xs) [ none ↦ none | some i ↦ some (suc i) ]

-- bytes.HasPrefix
unfoldable pub has_prefix : Bytes → Bytes → Bool
has_prefix s [] = true
has_prefix [] (p ∷ ps) = false
has_prefix (c ∷ s) (p ∷ ps) = c == p && has_prefix s ps

-- The letters ſ and ı, whose upper case is ASCII.
abbrev is_long_s : ℕ → ℕ → Bool
is_long_s c d = c == 0xc5 && d == 0xbf

abbrev is_dotless_i : ℕ → ℕ → Bool
is_dotless_i c d = c == 0xc4 && d == 0xb1

-- bytes.ToUpper, as far as a comparison with an ASCII text can see: all other letters that are not
-- ASCII stay as they are, as their upper case is not ASCII.
unfoldable pub to_upper : Bytes → Bytes
to_upper [] = []
to_upper (c ∷ []) = upper_byte c ∷ []
to_upper (c ∷ d ∷ cs) = elim (is_long_s c d || is_dotless_i c d) [
  | true ↦ (if is_long_s c d then b'S' else b'I') ∷ to_upper cs
  | false ↦ upper_byte c ∷ to_upper (d ∷ cs)
]

abbrev space_2 : ℕ → ℕ → Bool
space_2 c d = c == 0xc2 && (d == 0x85 || d == 0xa0)

abbrev space_3 : ℕ → ℕ → ℕ → Bool
space_3 c d e =
    c == 0xe1 && d == 0x9a && e == 0x80
    || c == 0xe2 && d == 0x80 && (leb 0x80 e && leb e 0x8a || e == 0xa8 || e == 0xa9 || e == 0xaf)
    || c == 0xe2 && d == 0x81 && e == 0x9f
    || c == 0xe3 && d == 0x80 && e == 0x80

-- The length of the white space (unicode.IsSpace) at the head of a text; 0 if there is none.
abbrev space_length : Bytes → ℕ
space_length [] = 0
space_length (c ∷ []) = if is_space c then 1 else 0
space_length (c ∷ d ∷ []) = if is_space c then 1 else if space_2 c d then 2 else 0
space_length (c ∷ d ∷ e ∷ _) =
    if is_space c then 1 else if space_2 c d then 2 else if space_3 c d e then 3 else 0

abbrev push_word : Bytes → List Bytes → List Bytes
push_word [] ws = ws
push_word (c ∷ w) ws = (c ∷ w) ∷ ws

fields_from : ℕ → Bytes → Bytes → List Bytes
fields_from skip word [] = push_word word []
fields_from (suc skip) word (c ∷ cs) = fields_from skip word cs
fields_from zero word (c ∷ cs) = elim (space_length (c ∷ cs)) [
  | zero ↦ fields_from zero (word ++ c ∷ []) cs
  | suc n ↦ push_word word (fields_from n [] cs)
]

-- bytes.Fields
unfoldable pub fields : Bytes → List Bytes
unfolding fields_from
fields = fields_from zero []

-- bytes.Split at one byte, with the text before the first one in front
split_from : ℕ → Bytes → Bytes → List Bytes
split_from c word [] = word ∷ []
split_from c word (x ∷ xs) = elim (x == c) [
  | true ↦ word ∷ split_from c [] xs
  | false ↦ split_from c (word ++ x ∷ []) xs
]

unfoldable pub split : ℕ → Bytes → List Bytes
unfolding split_from
split c = split_from c []
