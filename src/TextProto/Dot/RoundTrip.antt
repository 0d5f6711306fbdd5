-- ===== src/TextProto/Dot/RoundTrip.antt =====
-- What is written through a DotWriter is read back through a DotReader, line by line.
use briefmail.Base.{
  ℕ, length-append, ◌<◌, ◌≤◌, ◌+◌, ◌≡◌, refl, sym, ap, subst, length, ◌∙◌, Bool, true, false, ◌||◌,
  Option, some, List, [], ◌∷◌, ◌++◌, append-nil, append_assoc, arith, ◌==◌, if◌then◌else◌, Bytes,
  All,
}
use briefmail.Outcome.{Error, eof, ok}
use briefmail.TextProto.Io.{copy}
use briefmail.TextProto.Dot.{
  cr, lf, dot, max_token, token_of, drop_cr, scan_from, scan_lines, DotState, s_start, s_cr, s_text,
  Reader, DotReader, dot_reader, read, write_byte, write, close, encode,
}
use briefmail.TextProto.Dot.Stream.{
  is_end, unstuff, block_text, block_end, block_rest, copy-dot_reader,
}

-- No byte of a line is a CR or an LF.
abbrev pub IsLine : Bytes → Type 0
IsLine = All (λ c. (c == cr || c == lf) ≡ false)

-- A line break: CRLF, or a bare LF.
abbrev pub break : Bool → Bytes
break true = cr ∷ lf ∷ []
break false = lf ∷ []

-- A line of fewer bytes fits in the scanner's buffer with CR, LF and the dot that may be added.
abbrev pub max_line : ℕ
max_line = 65534

-- Lines, each with its break.
abbrev pub unlines : List (Bytes × Bool) → Bytes
unlines [] = []
unlines ((l, b) ∷ ls) = l ++ (break b ++ unlines ls)

abbrev pub AllLines : List (Bytes × Bool) → Type 0
AllLines = All (λ p. IsLine p.0 × (length p.0 < max_line))

-- The same lines, each ended by CRLF.
abbrev pub crlf_lines : List (Bytes × Bool) → Bytes
crlf_lines [] = []
crlf_lines ((l, b) ∷ ls) = l ++ (cr ∷ lf ∷ crlf_lines ls)

-- what remains to be written in state `s`
abbrev enc : DotState → Bytes → Bytes
enc s b = (write s b).0 ++ close (write s b).1

enc-cons :
    (s : DotState) (c : ℕ) (b : Bytes)
    → enc s (c ∷ b) ≡ (write_byte s c).0 ++ enc (write_byte s c).1 b
unfolding write
enc-cons s c b = append_assoc (write_byte s c).0 _ _

abbrev stuff : Bytes → Bytes
stuff [] = []
stuff (c ∷ l) = if c == dot then dot ∷ c ∷ l else c ∷ l

enc-text : (l t : Bytes) → IsLine l → enc s_text (l ++ t) ≡ l ++ enc s_text t
unfolding write_byte
enc-text [] t h = refl
enc-text (c ∷ l) t h = enc-cons s_text c (l ++ t) ∙ ground (arith, enc-text l t h.1)

enc-break : (b : Bool) (t : Bytes) → enc s_text (break b ++ t) ≡ cr ∷ lf ∷ enc s_start t
enc-break true t =
    enc-cons s_text cr (lf ∷ t) ∙ unfold write_byte in ap (λ x. cr ∷ x) (enc-cons s_cr lf t)
enc-break false t = enc-cons s_text lf t ∙ unfold write_byte in refl

enc-line :
    (l t : Bytes) (b : Bool)
    → IsLine l
    → enc s_start (l ++ (break b ++ t)) ≡ stuff l ++ (cr ∷ lf ∷ enc s_start t)
enc-line [] t true h =
    enc-cons s_start cr (lf ∷ t) ∙ unfold write_byte in ap (λ x. cr ∷ x) (enc-cons s_cr lf t)
enc-line [] t false h = enc-cons s_start lf t ∙ unfold write_byte in refl
enc-line (c ∷ l) t b h =
    enc-cons s_start c (l ++ (break b ++ t))
    ∙ unfold write_byte in ground (arith, enc-text l (break b ++ t) h.1, enc-break b t)

drop_cr-cr : (l : Bytes) → drop_cr (l ++ cr ∷ []) ≡ l
unfolding drop_cr
drop_cr-cr [] = refl
drop_cr-cr (c ∷ []) = refl
drop_cr-cr (c ∷ d ∷ l) = ap (λ x. c ∷ x) (drop_cr-cr (d ∷ l))

-- the scanner with a token more
abbrev behind : Bytes → Reader → Reader
behind token r = record r { tokens = token ∷ r.tokens }

token_of-fits :
    (line token : Bytes) (rest : Reader)
    → length line < max_token
    → token_of line token rest ≡ behind token rest
unfolding token_of
token_of-fits line token rest h = ground arith

scan-line :
    (l acc t : Bytes) (fault : Option Error)
    → IsLine l
    → length acc + length l + 1 < max_token
    → scan_from acc (l ++ (cr ∷ lf ∷ t)) fault ≡ behind (acc ++ l) (scan_from [] t fault)
unfolding scan_from
scan-line [] acc t fault h k =
    token_of-fits (acc ++ cr ∷ []) (drop_cr (acc ++ cr ∷ [])) (scan_from [] t fault)
      (omega (arith, length-append acc (cr ∷ [])))
    ∙ rw (drop_cr-cr acc, append-nil) refl
scan-line (c ∷ l) acc t fault h k = ground (
  arith,
  scan-line l (acc ++ c ∷ []) t fault h.1,
  append_assoc acc (c ∷ []) l,
  length-append acc (c ∷ []),
)

is_end-stuff : (l : Bytes) → IsLine l → is_end (stuff l) ≡ false
is_end-stuff [] h = refl
is_end-stuff (c ∷ []) h = ground arith
is_end-stuff (c ∷ d ∷ l) h = ground arith

unstuff-stuff : (l : Bytes) → unstuff (stuff l) ≡ l
unstuff-stuff [] = refl
unstuff-stuff (c ∷ l) = ground arith

stuff-IsLine : (l : Bytes) → IsLine l → IsLine (stuff l)
stuff-IsLine [] h = h
stuff-IsLine (c ∷ l) h = ground arith

length-stuff : (l : Bytes) → length (stuff l) ≤ length l + 1
length-stuff [] = omega arith
length-stuff (c ∷ l) = ground arith

-- the text of a last line that has no break
abbrev pub last_line : Bytes → Bytes
last_line [] = []
last_line (c ∷ l) = (c ∷ l) ++ (cr ∷ lf ∷ [])

-- A scanner over `input` starts with a whole block of this text, and then has `rest`.
record Starts (fault : Option Error) (input text rest : Bytes) : Type 0 where
  text_is : block_text (scan_from [] input fault).tokens ≡ text
  ends_well : (f : Option Error) → block_end (scan_from [] input fault).tokens f ≡ eof
  rest_is : block_rest (scan_from [] input fault).tokens ≡ (scan_from [] rest fault).tokens

Starts-line :
    (fault : Option Error) (l input text rest : Bytes)
    → IsLine l
    → length l < max_line
    → Starts fault input text rest
    → Starts fault (stuff l ++ (cr ∷ lf ∷ input)) (l ++ (cr ∷ lf ∷ text)) rest
Starts-line fault l input text rest h k s = record {
  text_is = rw scanned (rw plain (rw (unstuff-stuff l) (ap (λ t. l ++ (cr ∷ lf ∷ t)) s.text_is)));
  ends_well = λ f. rw scanned (rw plain (s.ends_well f));
  rest_is = rw scanned (rw plain s.rest_is);
}
  where
    scanned :
        scan_from [] (stuff l ++ (cr ∷ lf ∷ input)) fault
        ≡ behind (stuff l) (scan_from [] input fault)
    scanned = scan-line (stuff l) [] input fault (stuff-IsLine l h) (omega (arith, length-stuff l))

    plain : is_end (stuff l) ≡ false
    plain = is_end-stuff l h

Starts-dot : (fault : Option Error) (rest : Bytes) → Starts fault (dot ∷ cr ∷ lf ∷ rest) [] rest
Starts-dot fault rest = record {
  text_is = rw scanned;
  ends_well = λ f. rw scanned;
  rest_is = rw scanned;
}
  where
    scanned :
        scan_from [] (dot ∷ cr ∷ lf ∷ rest) fault ≡ behind (dot ∷ []) (scan_from [] rest fault)
    scanned = scan-line (dot ∷ []) [] rest fault (refl, tt) (omega arith)

enc-last :
    (c : ℕ) (l : Bytes)
    → IsLine (c ∷ l)
    → enc s_start (c ∷ l) ≡ stuff (c ∷ l) ++ (cr ∷ lf ∷ dot ∷ cr ∷ lf ∷ [])
unfolding write_byte
enc-last c l h = enc-cons s_start c l ∙ ground (arith, enc-text l [] h.1, append-nil l, enc-close)
  where
    enc-close : enc s_text [] ≡ cr ∷ lf ∷ dot ∷ cr ∷ lf ∷ []
    enc-close = unfold write close in refl

Starts-last :
    (fault : Option Error) (last rest : Bytes)
    → IsLine last
    → length last < max_line
    → Starts fault (enc s_start last ++ rest) (last_line last) rest
Starts-last fault [] rest h k = unfold write close in Starts-dot fault rest
Starts-last fault (c ∷ l) rest h k = rw (enc-last c l h) (
    rw (append_assoc (stuff (c ∷ l)) (cr ∷ lf ∷ dot ∷ cr ∷ lf ∷ []) rest)
      (Starts-line fault (c ∷ l) (dot ∷ cr ∷ lf ∷ rest) [] rest h k (Starts-dot fault rest)))

Starts-lines :
    (fault : Option Error) (ls : List (Bytes × Bool)) (last rest : Bytes)
    → AllLines ls
    → IsLine last
    → length last < max_line
    → Starts fault (enc s_start (unlines ls ++ last) ++ rest) (crlf_lines ls ++ last_line last) rest
Starts-lines fault [] last rest h k short = Starts-last fault last rest k short
Starts-lines fault ((l, b) ∷ ls) last rest h k short =
    let below = Starts-lines fault ls last rest h.1 k short in
    subst (λ t. Starts fault (t ++ rest) (crlf_lines ((l, b) ∷ ls) ++ last_line last) rest)
      (sym (
        ap (enc s_start) (
          append_assoc l (break b ++ unlines ls) last
          ∙ ap (λ t. l ++ t) (append_assoc (break b) (unlines ls) last))
        ∙ enc-line l (unlines ls ++ last) b h.0.0))
      (rw (append_assoc (stuff l) (cr ∷ lf ∷ enc s_start (unlines ls ++ last)) rest) (
        rw (append_assoc l (cr ∷ lf ∷ crlf_lines ls) (last_line last)) (
          Starts-line fault l (enc s_start (unlines ls ++ last) ++ rest)
            (crlf_lines ls ++ last_line last) rest h.0.0 h.0.1 below)))

-- Lines with LF or CRLF breaks and perhaps a last one with none, each of fewer than 65534 bytes, written through a DotWriter and
-- followed on the wire by any bytes: io.Copy from a DotReader, into buffers of any sizes, returns
-- the same lines, each ended by CRLF, and leaves exactly the lines of the bytes behind.
pub copy-encode :
    (ls : List (Bytes × Bool)) (last rest : Bytes) (fault : Option Error) (room : ℕ → ℕ) (fuel : ℕ)
    → AllLines ls
    → IsLine last
    → length last < max_line
    → ((k : ℕ) → 0 < room k)
    → length (crlf_lines ls ++ last_line last) < fuel
    → (d : DotReader) × (copy read room fuel 0 []
          (dot_reader (scan_lines (encode (unlines ls ++ last) ++ rest) fault))
        ≡ some (ok (crlf_lines ls ++ last_line last), d))
      × (d.r.tokens ≡ (scan_lines rest fault).tokens)
unfolding encode scan_lines
copy-encode ls last rest fault room fuel h k short pos enough =
    let s = Starts-lines fault ls last rest h k short in
    let r = scan_from [] (enc s_start (unlines ls ++ last) ++ rest) fault in
    let (d, moved, left) = copy-dot_reader r room fuel pos (rw s.text_is enough) in
    (d, rw s.text_is at (rw (s.ends_well r.fault) at moved), left ∙ s.rest_is)
