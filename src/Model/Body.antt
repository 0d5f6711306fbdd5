-- ===== src/Model/Body.antt =====
-- internal/model/body.go. `line[i:]` is what remains of a line, so no index leaves its slice.
pub mod Folding
use briefmail.Base.{
  ℕ, zero, suc, ◌+◌, ◌-◌, Bool, true, false, ◌&&◌, ◌||◌, Option, none, some, List, [], ◌∷◌, ◌++◌,
  Bytes, codes, ltb, leb, ◌==◌, if◌then◌else◌, length, take, drop,
}
use briefmail.Stream.{Stream, after_bytes}

abbrev within : ℕ → ℕ → ℕ → Bool
within lo hi c = leb lo c && leb c hi

abbrev continues : ℕ → Bool
continues = within 128 191

-- How many bytes behind the first one belong to its rune, as `range` over a string decodes
-- UTF-8. A byte that begins no valid rune is a rune of its own.
abbrev two_bytes : Bytes → ℕ
two_bytes (c ∷ _) = if continues c then 1 else 0
two_bytes [] = 0

abbrev three_bytes : ℕ → ℕ → Bytes → ℕ
three_bytes lo hi (c ∷ d ∷ _) = if within lo hi c && continues d then 2 else 0
three_bytes lo hi _ = 0

abbrev four_bytes : ℕ → ℕ → Bytes → ℕ
four_bytes lo hi (c ∷ d ∷ e ∷ _) = if within lo hi c && continues d && continues e then 3 else 0
four_bytes lo hi _ = 0

unfoldable pub rune_tail : ℕ → Bytes → ℕ
rune_tail b rest =
    if within 0xc2 0xdf b
    then two_bytes rest
    else if b == 0xe0
    then three_bytes 0xa0 0xbf rest
    else if b == 0xed
    then three_bytes 0x80 0x9f rest
    else if within 0xe1 0xef b
    then three_bytes 0x80 0xbf rest
    else if b == 0xf0
    then four_bytes 0x90 0xbf rest
    else if b == 0xf4
    then four_bytes 0x80 0x8f rest
    else if within 0xf1 0xf3 b
    then four_bytes 0x80 0xbf rest
    else 0

abbrev pub is_blank : ℕ → Bool
is_blank b = b == 32 || b == 9

-- The loop of findFoldPoint: at byte `i`, with `skip` bytes of the last rune still ahead. A rune
-- is a space or a tab just if its first byte is.
unfoldable pub fold_loop : ℕ → ℕ → ℕ → ℕ → Bytes → Option ℕ
unfolding rune_tail
fold_loop limit i candidate skip [] = none
fold_loop limit i candidate (suc skip) (b ∷ rest) = fold_loop limit (suc i) candidate skip rest
fold_loop limit i candidate zero (b ∷ rest) =
    let candidate' = if is_blank b then i else candidate in
    elim (leb limit i && ltb 0 candidate') [
      | true ↦ some candidate'
      | false ↦ fold_loop limit (suc i) candidate' (rune_tail b rest) rest
    ]

abbrev pub or_length : Bytes → Option ℕ → ℕ
or_length line none = length line
or_length line (some i) = i

-- findFoldPoint. A negative `length` and 0 give the same on the lines that Prepend asks for.
unfoldable pub find_fold_point : Bytes → ℕ → ℕ
unfolding fold_loop
find_fold_point line limit =
    if ltb limit (length line) then or_length line (fold_loop limit 0 0 0 line) else length line

abbrev pub crlf : Bytes
crlf = 13 ∷ 10 ∷ []

abbrev pub fold_length : ℕ
fold_length = 78

-- The loop of Prepend over `value[i:]`; `fuel` is at least its length.
unfoldable pub fold_value : ℕ → ℕ → Bytes → Bytes
unfolding find_fold_point
fold_value fuel used [] = []
fold_value zero used (c ∷ value) = []
fold_value (suc fuel) used (c ∷ value) =
    let point = find_fold_point (c ∷ value) (fold_length - used) in
    take point (c ∷ value) ++ (crlf ++ fold_value fuel 0 (drop point (c ∷ value)))

-- the buffer that Prepend fills
unfoldable pub header_text : Bytes → Bytes → Bytes
unfolding fold_value
header_text key value = key ++ (codes ": " ++ fold_value (length value) (length key + 2) value)

-- (*Body).Prepend: the body afterwards, and the length returned
unfoldable pub prepend : Bytes → Bytes → Stream → Stream × ℕ
unfolding header_text
prepend key value body =
    let buffer = header_text key value in (after_bytes buffer body, length buffer)
