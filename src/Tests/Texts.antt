-- ===== src/Tests/Texts.antt =====
-- The theorems on texts, addresses and the address book at concrete inputs.
use briefmail.Base.{
  ℕ, ◌<◌, ◌≡◌, refl, Bool, true, false, Option, none, some, List, [], ◌∷◌, ◌++◌, Bytes, codes,
  equal, arith,
}
use briefmail.Outcome.{ok, ◌>>=◌}
use briefmail.Addressbook
use briefmail.Addressbook.{Addressbook, Entry, local, remote, assign}
use briefmail.Addressbook.Lookup.{IsAnswer, parse-lookup}
use briefmail.Model.Address.{parse_address, IsParsed, parse_address-IsParsed}
use briefmail.Model.Body.{prepend}
use briefmail.Model.Body.Folding.{IsPrepended, prepend-IsPrepended}
use briefmail.Storage.Cache.{write, reader}
use briefmail.Storage.Cache.RoundTrip.{write-reader}
use briefmail.Stream.{of_bytes, read_all}
use briefmail.TextProto.Dot.{Reader, DotReader, dot_reader, scan_lines, encode, read}
use briefmail.TextProto.Dot.Stream.{block_text, block_end, block_rest, copy-dot_reader}
use briefmail.TextProto.Dot.RoundTrip.{unlines, crlf_lines, last_line, copy-encode}
use briefmail.TextProto.Io.{copy, finished}
use briefmail.Tests.{plain_names, ann, ids, file, domains}

abbrev one_at_a_time : ℕ → ℕ
one_at_a_time k = 1

one_pos : (k : ℕ) → 0 < one_at_a_time k
one_pos k = omega arith

abbrev block_lines : Reader
block_lines = record { tokens = codes "a" ∷ codes "." ∷ codes "NOOP" ∷ []; fault = none }

copy-dot_reader_example :
    (d : DotReader) × (copy read one_at_a_time 9 0 [] (dot_reader block_lines)
      ≡ some (finished (block_text block_lines.tokens) (block_end block_lines.tokens none), d))
    × (d.r.tokens ≡ block_rest block_lines.tokens)
copy-dot_reader_example = copy-dot_reader block_lines one_at_a_time 9 one_pos (omega arith)

write-reader_example :
    ((do e ← write (of_bytes (codes "abc")); s ← reader e; λ c. (read_all s, c))
      (record { memory_limit = 2; faults = [] })).0
    ≡ ok (codes "abc")
write-reader_example = write-reader 2 (of_bytes (codes "abc"))

abbrev users : Bytes → Option (Bytes → Option Entry)
users domain = none

abbrev book : Addressbook
book = record { domains = record { entries = domains }; entries = users }

abbrev local_entry : Entry
local_entry = record { kind = local; mailbox = some 1; address = none }

abbrev no_entry : Bytes → Option Entry
no_entry name = none

-- the address book of the file
abbrev parsed : Addressbook
parsed = record {
  domains = record { entries = domains };
  entries = assign users (codes "a.b") (assign no_entry (codes "ann") local_entry);
}

parse-lookup_example : IsAnswer parsed ann (Addressbook.lookup parsed ann)
unfolding Addressbook.parse Addressbook.lookup equal parse_address
parse-lookup_example = parse-lookup plain_names ids domains (ok file) parsed ann refl

prepend-IsPrepended_example :
    IsPrepended
      (codes "K")
      (codes "a b")
      (of_bytes (codes "hi"))
      (prepend (codes "K") (codes "a b") (of_bytes (codes "hi")))
prepend-IsPrepended_example =
    prepend-IsPrepended (codes "K") (codes "a b") (of_bytes (codes "hi")) (λ p. cc)

parse_address-IsParsed_example : IsParsed plain_names (codes "ann@a.b") ann
unfolding parse_address
parse_address-IsParsed_example = parse_address-IsParsed plain_names (codes "ann@a.b") ann refl

-- a line that begins with a dot, a bare line feed, a last line with no break, and a command behind
abbrev text_lines : List (Bytes × Bool)
text_lines = (codes ".a", false) ∷ (codes "b", true) ∷ []

copy-encode_example :
    (d : DotReader) × (copy read one_at_a_time 20 0 []
        (dot_reader (scan_lines (encode (unlines text_lines ++ codes "c") ++ codes "NOOP") none))
      ≡ some (ok (crlf_lines text_lines ++ last_line (codes "c")), d))
    × (d.r.tokens ≡ (scan_lines (codes "NOOP") none).tokens)
copy-encode_example =
    copy-encode text_lines (codes "c") (codes "NOOP") none one_at_a_time 20
      (((refl, (refl, tt)), omega arith), (((refl, tt), omega arith), tt)) (refl, tt) (omega arith)
      one_pos (omega arith)
