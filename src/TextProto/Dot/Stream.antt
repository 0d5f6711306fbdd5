-- ===== src/TextProto/Dot/Stream.antt =====
-- The dot reader as a stream: which bytes it gives, how it ends, and which lines it leaves.
use native.Mathlib.Numerals.{add-one}
use briefmail.Base.{
  ℕ, zero, suc, ◌+◌, ◌<◌, ◌≡◌, refl, sym, ap, ◌∙◌, Bool, false, ◌&&◌, Option, none, some, List, [],
  ◌∷◌, ◌++◌, append_assoc, length, length-append, inl, inr, Bool-cases, Option-cases, get_elem?,
  drop, arith, ltb, ◌==◌, if◌then◌else◌, Bytes,
}
use briefmail.Outcome.{Error, eof, Result, ok, err}
use briefmail.TextProto.Io.{Serves, gives, ends, IsStream, copy, finished, copy-IsStream}
use briefmail.TextProto.Dot.{
  cr, lf, dot, Reader, scan_error, read_line, DotState, s_start, s_cr, s_text, s_eof, DotReader,
  dot_reader, first_is_dot, read_byte, stopped, read_into, read,
}

-- The line that ends a block.
abbrev pub is_end : Bytes → Bool
is_end line = length line == 1 && first_is_dot line

-- A line without the dot that stuffs it.
abbrev pub unstuff : Bytes → Bytes
unstuff [] = []
unstuff (c ∷ cs) = if c == dot then cs else c ∷ cs

-- The text of a block: its lines, unstuffed, each with a CRLF.
abbrev pub block_text : List Bytes → Bytes
block_text [] = []
block_text (l ∷ ls) = if is_end l then [] else unstuff l ++ (cr ∷ lf ∷ block_text ls)

-- How reading the block ends.
abbrev pub block_end : List Bytes → Option Error → Error
block_end [] fault = scan_error fault
block_end (l ∷ ls) fault = if is_end l then eof else block_end ls fault

-- The lines behind the block.
abbrev pub block_rest : List Bytes → List Bytes
block_rest [] = []
block_rest (l ∷ ls) = if is_end l then ls else block_rest ls

abbrev left : DotState → DotReader → Bytes
left s_start d = block_text d.r.tokens
left s_text d = drop d.i d.line ++ (cr ∷ lf ∷ block_text d.r.tokens)
left s_cr d = lf ∷ block_text d.r.tokens
left s_eof d = []

abbrev ending : DotState → DotReader → Error
ending s_eof d = eof
ending _ d = block_end d.r.tokens d.r.fault

abbrev after : DotState → DotReader → List Bytes
after s_eof d = d.r.tokens
after _ d = block_rest d.r.tokens

module _ (e : Error) (rest : List Bytes) where
  -- In state `d` the reader has `c` left, will end with `e`, and then leave `rest`.
  pub record Holds (d : DotReader) (c : Bytes) : Type 0 where
    pub text : c ≡ left d.state d
    pub ends_with : ending d.state d ≡ e
    pub leaves : after d.state d ≡ rest

  pub record Left (d : DotReader) : Type 0 where
    pub lines : d.r.tokens ≡ rest

get-drop : (l : Bytes) (i : ℕ) {c : ℕ} → get_elem? l i ≡ some c → drop i l ≡ c ∷ drop (i + 1) l
get-drop [] i h = cc
get-drop (x ∷ l) zero h = ground arith
get-drop (x ∷ l) (suc i) h = get-drop l i h ∙ rw (add-one, add-one)

drop-none : (l : Bytes) (i : ℕ) → get_elem? l i ≡ none → drop i l ≡ []
drop-none [] zero h = refl
drop-none [] (suc i) h = refl
drop-none (x ∷ l) zero h = cc
drop-none (x ∷ l) (suc i) h = drop-none l i h

-- An error behind the bytes `b`: an io.EOF is held back if there are any, another error drops them.
stopped-Serves :
    (rest : List Bytes) (e : Error) (room : ℕ) (b : Bytes) (d : DotReader)
    → length b < room
    → Left e rest d
    → (e ≡ eof → Holds e rest d [])
    → Serves (Holds e rest) (Left e rest) room (b ++ []) e (stopped e b d)
unfolding stopped
stopped-Serves rest eof room [] d f l h = ends refl refl f (λ _. refl) l
stopped-Serves rest eof room (x ∷ b) d f l h =
    gives [] refl refl (omega arith) (omega arith) (h refl)
stopped-Serves rest e room b d f l h =
    ends refl refl (omega (arith, length-append b [])) (λ p. cc) l

module _ (e : Error) (rest : List Bytes) where
  -- What one call of readByte does where the bytes `c` are left.
  abbrev Reads : Bytes → Result ℕ × DotReader → Type 0
  Reads [] p = (p.0 ≡ err e) × Left e rest p.1 × (e ≡ eof → Holds e rest p.1 [])
  Reads (x ∷ c) p = (p.0 ≡ ok x) × Holds e rest p.1 c

  read_byte-text :
      (d : DotReader) (c : Bytes)
      → c ≡ drop d.i d.line ++ (cr ∷ lf ∷ block_text d.r.tokens)
      → block_end d.r.tokens d.r.fault ≡ e
      → block_rest d.r.tokens ≡ rest
      → Reads c (read_byte (record d { state = s_text }))
  unfolding read_byte
  read_byte-text d c h k l = elim (Option-cases (get_elem? d.line d.i)) [
    | inl n ↦ rw h (
        rw (drop-none d.line d.i n)
          (rw (n, read_byte) (refl, record { text = refl; ends_with = k; leaves = l })))
    | inr (x, s) ↦ rw h (
        rw (get-drop d.line d.i s)
          (rw (s, read_byte) (refl, record { text = refl; ends_with = k; leaves = l })))
  ]

  drop-unstuff :
      (line : Bytes)
      → is_end line ≡ false
      → drop (if ltb 1 (length line) && first_is_dot line then 1 else 0) line ≡ unstuff line
  drop-unstuff [] h = refl
  drop-unstuff (c ∷ []) h = ground arith
  drop-unstuff (c ∷ x ∷ l) h = ground arith

  abbrev at : DotState → List Bytes → Option Error → Bytes → ℕ → DotReader
  at s tokens fault line i = record {
    r = record { tokens = tokens; fault = fault };
    state = s;
    line = line;
    i = i;
  }

  read_byte-at :
      (s : DotState) (tokens : List Bytes) (fault : Option Error) (line : Bytes) (i : ℕ) (c : Bytes)
      → Holds e rest (at s tokens fault line i) c
      → Reads c (read_byte (at s tokens fault line i))
  unfolding read_byte read_line
  read_byte-at s_start [] fault line i c h = rw h.text (
    ap err h.ends_with,
    record { lines = h.leaves },
    λ _. record { text = refl; ends_with = h.ends_with; leaves = h.leaves },
  )
  read_byte-at s_start (l ∷ ls) fault line i c h = elim (Bool-cases (is_end l)) [
    | inl done ↦
        let ended : eof ≡ e = rw done at h.ends_with in
        let kept : ls ≡ rest = rw done at h.leaves in
        rw h.text (
          rw done (
            ap err ended,
            record { lines = kept },
            λ _. record { text = refl; ends_with = ended; leaves = kept },
          ))
    | inr more ↦ rw h.text (
        rw more (
          read_byte-text
            (at s_text ls fault l (if ltb 1 (length l) && first_is_dot l then 1 else 0)) _
            (ap (λ t. t ++ (cr ∷ lf ∷ block_text ls)) (sym (drop-unstuff l more)))
            (rw more at h.ends_with) (rw more at h.leaves)))
  ]
  read_byte-at s_text tokens fault line i c h =
      read_byte-text (at s_text tokens fault line i) c h.text h.ends_with h.leaves
  read_byte-at s_cr tokens fault line i c h =
      rw h.text (refl, record { text = refl; ends_with = h.ends_with; leaves = h.leaves })
  read_byte-at s_eof tokens fault line i c h = rw h.text (
    ap err h.ends_with,
    record { lines = h.leaves },
    λ _. record { text = refl; ends_with = h.ends_with; leaves = h.leaves },
  )

  read_into-Serves :
      (k room : ℕ) (b c : Bytes) (d : DotReader)
      → 0 < room
      → k + length b ≡ room
      → Holds e rest d c
      → Serves (Holds e rest) (Left e rest) room (b ++ c) e (read_into k b d)
  unfolding read_into
  read_into-Serves zero room b c d p q h = gives c refl refl (omega arith) (omega arith) h
  read_into-Serves (suc k) room b [] d p q h =
      let (r, l, o) = read_byte-at d.state d.r.tokens d.r.fault d.line d.i [] h in
      rw (r, read_into) (stopped-Serves rest e room b (read_byte d).1 (omega arith) l o)
  read_into-Serves (suc k) room b (x ∷ c) d p q h =
      let (r, h') = read_byte-at d.state d.r.tokens d.r.fault d.line d.i (x ∷ c) h in
      rw (r, read_into)
        (rw (append_assoc b (x ∷ []) c) at (
          read_into-Serves k room (b ++ x ∷ []) c (read_byte d).1 p
            (omega (arith, length-append b (x ∷ []))) h'))

  -- (*dotReader).Read is a stream of the text of the block.
  pub read-IsStream : IsStream read (Holds e rest) (Left e rest) e
  unfolding read
  read-IsStream = record {
    serves = λ room d c p h. read_into-Serves room room [] c d p (omega arith) h;
  }

-- io.Copy from a fresh dot reader, into buffers of any sizes: it moves the text of the block, and
-- leaves the lines behind it.
pub copy-dot_reader :
    (r : Reader) (room : ℕ → ℕ) (fuel : ℕ)
    → ((k : ℕ) → 0 < room k)
    → length (block_text r.tokens) < fuel
    → (d : DotReader) × (copy read room fuel 0 [] (dot_reader r)
        ≡ some (finished (block_text r.tokens) (block_end r.tokens r.fault), d))
      × (d.r.tokens ≡ block_rest r.tokens)
copy-dot_reader r room fuel pos enough =
    let e = block_end r.tokens r.fault in
    let rest = block_rest r.tokens in
    let (d, moved, l) =
      copy-IsStream read (Holds e rest) (Left e rest) e (read-IsStream e rest) room pos fuel 0 []
        (block_text r.tokens) (dot_reader r) enough
        (record { text = refl; ends_with = refl; leaves = refl }) in
    (d, moved, l.lines)
