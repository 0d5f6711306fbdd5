-- ===== src/Model/Body/Folding.antt =====
-- A folded header field unfolds to the field: no byte of the value is lost, and each line but the
-- first begins with white space.
use briefmail.Base.{
  ℕ, zero, suc, ◌+◌, ◌-◌, ◌≤◌, ◌<◌, ◌≡◌, ◌≢◌, refl, sym, ap, subst, ◌∙◌, Bool, true, false, ◌&&◌,
  Option, none, some, List, [], ◌∷◌, ◌⊎◌, inl, inr, Bool-cases, ◌++◌, Bytes, codes, ltb, leb,
  if◌then◌else◌, length, take, drop, get_elem?, take-append-drop, drop-append_self, All,
  length-drop, arith,
}
use briefmail.Model.Body.{
  is_blank, fold_loop, rune_tail, or_length, find_fold_point, crlf, fold_length, fold_value,
  header_text, prepend,
}
use briefmail.Stream.{Stream}

-- The byte at `k` is a space or a tab.
abbrev BlankAt : ℕ → Bytes → Type 0
BlankAt k l = (b : ℕ) × (get_elem? l k ≡ some b) × (is_blank b ≡ true)

-- A fold point that is found is not the start of the line. Whatever holds of the candidate that
-- the loop starts with, and of each place with white space, holds of it.
fold_loop_sound :
    (P : ℕ → Type 0) (rest : Bytes) (limit i candidate skip point : ℕ)
    → P candidate
    → ((k : ℕ) → BlankAt k rest → P (i + k))
    → fold_loop limit i candidate skip rest ≡ some point
    → P point × (0 < point)
unfolding fold_loop
fold_loop_sound P [] limit i candidate skip point p f h = cc
fold_loop_sound P (b ∷ rest) limit i candidate (suc skip) point p f h =
    fold_loop_sound P rest limit (suc i) candidate skip point p
      (λ k q. subst P (omega arith) (f (suc k) q)) h
fold_loop_sound P (b ∷ rest) limit i candidate zero point p f h =
    let next = if is_blank b then i else candidate in
    elim (Bool-cases (leb limit i && ltb 0 next)) [
      | inl here ↦
          let found : some next ≡ some point = rw (here, fold_loop) at h in
          (subst P (cc found) (pick (is_blank b) refl), ground (arith, found, here))
      | inr on ↦
          fold_loop_sound P rest limit (suc i) next (rune_tail b rest) point
            (pick (is_blank b) refl) (λ k q. subst P (omega arith) (f (suc k) q))
            (rw (on, fold_loop) at h)
    ]
  where
    pick : (t : Bool) → is_blank b ≡ t → P (if t then i else candidate)
    pick true q = subst P (omega arith) (f 0 (b, refl, q))
    pick false q = p

-- Where Prepend breaks a line that is not empty: inside the line, before white space, or at its end.
data IsFold (line : Bytes) (p : ℕ) : Type 0 where
  at_blank : BlankAt p line → 0 < p → IsFold line p
  at_end : p ≡ length line → IsFold line p

BlankAt-lt : (k : ℕ) (l : Bytes) → BlankAt k l → k < length l
BlankAt-lt k [] (b, p, q) = cc p
BlankAt-lt zero (x ∷ l) h = omega arith
BlankAt-lt (suc k) (x ∷ l) h = omega (arith, BlankAt-lt k l h)

find_fold_point-IsFold : (line : Bytes) (limit : ℕ) → IsFold line (find_fold_point line limit)
unfolding find_fold_point
find_fold_point-IsFold line limit = elim (Bool-cases (ltb limit (length line))) [
  | inr short ↦ rw short (at_end refl)
  | inl long ↦ rw long (go (fold_loop limit 0 0 0 line) refl)
]
  where
    go : (o : Option ℕ) → fold_loop limit 0 0 0 line ≡ o → IsFold line (or_length line o)
    go none p = at_end refl
    go (some i) p =
        let (q, pos) =
          fold_loop_sound (λ x. (x ≡ 0) ⊎ BlankAt x line) line limit 0 0 0 i (inl refl)
            (λ k b. inr (subst (λ x. BlankAt x line) (omega arith) b)) p in
        elim q [ inl z ↦ absurd (omega arith) | inr b ↦ at_blank b pos ]

abbrev pub StartsBlank : Bytes → Type 0
StartsBlank [] = ⊥
StartsBlank (c ∷ l) = is_blank c ≡ true

-- the pieces, each with a CRLF
abbrev pub lines_of : List Bytes → Bytes
lines_of [] = []
lines_of (p ∷ ps) = p ++ (crlf ++ lines_of ps)

abbrev pub joined : List Bytes → Bytes
joined [] = []
joined (p ∷ ps) = p ++ joined ps

-- `out` is `value`, cut into pieces, with a CRLF behind each; each piece but the first begins with
-- white space, and so does the first where the value does.
pub record IsFolded (value out : Bytes) : Type 0 where
  pub head : Bytes
  pub tail : List Bytes
  pub out_is : out ≡ lines_of (head ∷ tail)
  pub value_is : value ≡ joined (head ∷ tail)
  pub tail_blank : All StartsBlank tail
  pub head_blank : StartsBlank value → StartsBlank head

StartsBlank-drop : (p : ℕ) (l : Bytes) → BlankAt p l → StartsBlank (drop p l)
StartsBlank-drop p [] (b, q, r) = cc q
StartsBlank-drop zero (x ∷ l) h = ground arith
StartsBlank-drop (suc p) (x ∷ l) h = StartsBlank-drop p l h

StartsBlank-take : (p : ℕ) (l : Bytes) → 0 < p → StartsBlank l → StartsBlank (take p l)
StartsBlank-take zero l h b = elim h [ ]
StartsBlank-take (suc p) [] h b = b
StartsBlank-take (suc p) (x ∷ l) h b = b

drop_all : (l : Bytes) → drop (length l) l ≡ []
drop_all [] = refl
drop_all (x ∷ l) = drop_all l

drop_shorter : (p : ℕ) (l : Bytes) → 0 < p → l ≢ [] → length (drop p l) < length l
drop_shorter p [] h ne = absurd (ne refl)
drop_shorter p (x ∷ l) h ne = omega (arith, length-drop p (x ∷ l))

IsFold-pos : (l : Bytes) (p : ℕ) → l ≢ [] → IsFold l p → 0 < p
IsFold-pos l p ne (at_blank b q) = q
IsFold-pos [] p ne (at_end q) = absurd (ne refl)
IsFold-pos (x ∷ l) p ne (at_end q) = omega arith

-- one round of the loop, and what the rounds behind it make of the rest
fold_value-round :
    (fuel used c : ℕ) (v : Bytes)
    → let line : Bytes = c ∷ v in
      let point = find_fold_point line (fold_length - used) in
      ((drop point line ≢ []) → IsFolded (drop point line) (fold_value fuel 0 (drop point line)))
      → IsFolded line (fold_value (suc fuel) used line)
unfolding fold_value
fold_value-round fuel used c v ih =
    go (drop point line) refl (find_fold_point-IsFold line (fold_length - used))
  where
    line : Bytes
    line = c ∷ v

    point : ℕ
    point = find_fold_point line (fold_length - used)

    go :
        (rest : Bytes)
        → drop point line ≡ rest
        → IsFold line point
        → IsFolded line (take point line ++ (crlf ++ fold_value fuel 0 (drop point line)))
    go [] p f = record {
      head = take point line;
      tail = [];
      out_is = ap (λ t. take point line ++ (crlf ++ fold_value fuel 0 t)) p;
      value_is = sym (take-append-drop point line) ∙ ap (λ t. take point line ++ t) p;
      tail_blank = tt;
      head_blank = StartsBlank-take point line (IsFold-pos line point (λ e. cc) f);
    }
    go (x ∷ r) p f =
        let g = ih (λ e. cc) in
        record {
          head = take point line;
          tail = g.head ∷ g.tail;
          out_is = ap (λ t. take point line ++ (crlf ++ t)) g.out_is;
          value_is = sym (take-append-drop point line) ∙ ap (λ t. take point line ++ t) g.value_is;
          tail_blank = (g.head_blank (blank f), g.tail_blank);
          head_blank = StartsBlank-take point line (IsFold-pos line point (λ e. cc) f);
        }
      where
        blank : IsFold line point → StartsBlank (drop point line)
        blank (at_blank b q) = StartsBlank-drop point line b
        blank (at_end q) = cc (drop_all line)

fold_value-IsFolded :
    (fuel used : ℕ) (value : Bytes)
    → length value ≤ fuel
    → value ≢ []
    → IsFolded value (fold_value fuel used value)
fold_value-IsFolded fuel used [] h ne = absurd (ne refl)
fold_value-IsFolded zero used (c ∷ v) h ne = absurd (omega arith)
fold_value-IsFolded (suc fuel) used (c ∷ v) h ne = fold_value-round fuel used c v (λ more.
    fold_value-IsFolded fuel 0 (drop (find_fold_point (c ∷ v) (fold_length - used)) (c ∷ v))
      (omega (
        arith,
        drop_shorter (find_fold_point (c ∷ v) (fold_length - used)) (c ∷ v)
            (IsFold-pos (c ∷ v) (find_fold_point (c ∷ v) (fold_length - used)) ne
              (find_fold_point-IsFold (c ∷ v) (fold_length - used)))
            ne,
      ))
      more)

-- `r`, what Prepend returns: the folded field stands before the old body, which begins again at
-- the length returned.
pub record IsPrepended (key value : Bytes) (body : Stream) (r : Stream × ℕ) : Type 0 where
  pub text : Bytes
  pub folded : IsFolded value text
  pub bytes_are : r.0.bytes ≡ (key ++ (codes ": " ++ text)) ++ body.bytes
  pub end_is : r.0.end ≡ body.end
  pub offset_is : drop r.1 r.0.bytes ≡ body.bytes

-- Prepend with a value that is not empty puts `key: value` before the body, folded at white space
-- only, and loses nothing of either; the length returned is where the old body begins.
pub prepend-IsPrepended :
    (key value : Bytes) (body : Stream)
    → value ≢ []
    → IsPrepended key value body (prepend key value body)
unfolding prepend header_text
prepend-IsPrepended key value body ne =
    let text = fold_value (length value) (length key + 2) value in
    record {
      text = text;
      folded = fold_value-IsFolded (length value) (length key + 2) value (omega arith) ne;
      bytes_are = refl;
      end_is = refl;
      offset_is = drop-append_self (key ++ (codes ": " ++ text)) body.bytes;
    }
