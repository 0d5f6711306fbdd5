-- ===== src/Text/Base64.antt =====
-- base64.StdEncoding.DecodeString
use briefmail.Base.{
  ℕ, ◌+◌, ◌-◌, ◌*◌, ◌/◌, ◌%◌, ◌&&◌, ◌||◌, Option, none, some, [], ◌∷◌, ◌++◌, Bytes, leb, ◌==◌,
  if◌then◌else◌,
}

-- the value of a letter of the alphabet
abbrev value : ℕ → Option ℕ
value c =
    if leb b'A' c && leb c b'Z'
    then some (c - b'A')
    else if leb b'a' c && leb c b'z'
    then some (c - b'a' + 26)
    else if leb b'0' c && leb c b'9'
    then some (c - b'0' + 52)
    else if c == b'+'
    then some 62
    else if c == b'/'
    then some 63
    else none

-- the decoder passes over CR and LF
without_breaks : Bytes → Bytes
without_breaks [] = []
without_breaks (c ∷ cs) =
    let rest = without_breaks cs in if c == 13 || c == 10 then rest else c ∷ rest

abbrev two : Option ℕ → Option ℕ → Option Bytes
two (some a) (some b) = some ((a * 4 + b / 16) ∷ [])
two _ _ = none

abbrev three : Option ℕ → Option ℕ → Option ℕ → Option Bytes
three (some a) (some b) (some c) = some ((a * 4 + b / 16) ∷ (b % 16 * 16 + c / 4) ∷ [])
three _ _ _ = none

abbrev four : Option ℕ → Option ℕ → Option ℕ → Option ℕ → Option Bytes
four (some a) (some b) (some c) (some d) =
    some ((a * 4 + b / 16) ∷ (b % 16 * 16 + c / 4) ∷ (c % 4 * 64 + d) ∷ [])
four _ _ _ _ = none

abbrev join : Option Bytes → Option Bytes → Option Bytes
join (some a) (some b) = some (a ++ b)
join _ _ = none

-- The last group may end in one `=` or two.
abbrev last_group : ℕ → ℕ → ℕ → ℕ → Option Bytes
last_group a b c d =
    if c == b'=' && d == b'='
    then two (value a) (value b)
    else if d == b'='
    then three (value a) (value b) (value c)
    else four (value a) (value b) (value c) (value d)

groups : Bytes → Option Bytes
groups [] = some []
groups (a ∷ b ∷ c ∷ d ∷ []) = last_group a b c d
groups (a ∷ b ∷ c ∷ d ∷ e ∷ cs) =
    join (four (value a) (value b) (value c) (value d)) (groups (e ∷ cs))
groups _ = none

-- `none` is an error
unfoldable pub decode : Bytes → Option Bytes
unfolding without_breaks groups
decode s = groups (without_breaks s)
