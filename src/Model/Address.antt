-- ===== src/Model/Address.antt =====
-- internal/model/address.go and envelope.go, internal/normalize/strings.go and set.go
pub mod Errors
use briefmail.Base.{
  ℕ, zero, suc, ◌≤◌, ◌≡◌, ◌≢◌, refl, ◌∙◌, ap, Bool, false, ◌||◌, Option, none, some, List, [], ◌∷◌,
  ◌++◌, Bytes, ltb, ◌==◌, equal, if◌then◌else◌, length, take, drop, any, arith,
}
use briefmail.Outcome.{Result, ok, err, invalid_address_format, path_too_long, panic}
use briefmail.Outcome.Fallible.{◌>>=◌}

-- normalize.User and normalize.Domain, which are calls of golang.org/x/text/secure/precis and
-- golang.org/x/net/idna.
pub record Normalizer : Type 0 where
  pub user : Bytes → Result Bytes
  pub domain : Bytes → Result Bytes

pub record Address : Type 0 where
  pub raw : Bytes
  pub user : Bytes
  pub domain : Bytes

-- NilAddress
abbrev pub nil_address : Address
nil_address = record { raw = []; user = []; domain = [] }

-- strings.LastIndex of one byte
unfoldable pub last_index : ℕ → Bytes → Option ℕ
last_index c [] = none
last_index c (x ∷ xs) = elim (last_index c xs) [
  | some i ↦ some (suc i)
  | none ↦ if x == c then some 0 else none
]

-- the part of ParseAddress for an address with an `@` at `i`
parse_at : Normalizer → Bytes → ℕ → Result Address
parse_at n raw i = do
  user ← n.user (take i raw)
  domain ← n.domain (drop (suc i) raw)
  if ltb 64 (length user) || ltb 255 (length domain) || ltb 256 (length raw)
      then err path_too_long
      else ok (record { raw = raw; user = user; domain = domain })

-- ParseAddress
unfoldable pub parse_address : Normalizer → Bytes → Result Address
unfolding parse_at last_index
parse_address n [] = ok nil_address
parse_address n (c ∷ raw) = elim (last_index b'@' (c ∷ raw)) [
  | none ↦ err invalid_address_format
  | some i ↦ parse_at n (c ∷ raw) i
]

-- (*Address).String and Value
abbrev pub to_string : Address → Bytes
to_string a = a.raw

-- (*Address).MarshalText
abbrev pub marshal_text : Address → Bytes
marshal_text a = a.raw

-- What a driver of database/sql may hand over for a column; `other_value` is by its text under
-- fmt.Sprint.
pub data Value : Type 0 where
  string_value bytes_value other_value : Bytes → Value

-- driver.String.ConvertValue
unfoldable pub convert_value : Value → Value
convert_value (string_value s) = string_value s
convert_value (bytes_value b) = bytes_value b
convert_value (other_value s) = string_value s

-- `v.(string)`
unfoldable pub as_string : Value → Result Bytes
as_string (string_value s) = ok s
as_string (bytes_value b) = err panic
as_string (other_value s) = err panic

-- (*Address).Scan
unfoldable pub scan_address : Normalizer → Value → Result Address
unfolding convert_value as_string
scan_address n v = do s ← as_string (convert_value v); parse_address n s

-- (*Address).UnmarshalText
abbrev pub unmarshal_text : Normalizer → Bytes → Result Address
unmarshal_text n v = parse_address n v

-- model.Envelope; a time.Time is a count of seconds
pub record Envelope : Type 0 where
  pub helo : Bytes
  pub addr : Bytes
  pub date : ℕ
  pub from : Option Address
  pub to : List Address

-- normalize.Set, as the list of its members
pub record DomainSet : Type 0 where
  pub entries : List Bytes

-- normalize.NewSet
unfoldable pub new_set : List Bytes → (Bytes → Result Bytes) → Result DomainSet
new_set [] mapping = ok (record { entries = [] })
new_set (e ∷ es) mapping = do
  n ← mapping e
  set ← new_set es mapping
  ok (record { entries = n ∷ set.entries })

-- (*Set).Contains
unfoldable pub contains : DomainSet → Bytes → Bool
unfolding equal
contains s e = any (λ x. equal x e) s.entries

-- What holds of each address that ParseAddress returns.
pub record IsParsed (n : Normalizer) (raw : Bytes) (a : Address) : Type 0 where
  pub raw_kept : a.raw ≡ raw
  pub user_fits : length a.user ≤ 64
  pub domain_fits : length a.domain ≤ 255
  pub raw_fits : length a.raw ≤ 256

parse_at-IsParsed :
    (n : Normalizer) (raw : Bytes) (i : ℕ) (a : Address)
    → parse_at n raw i ≡ ok a
    → IsParsed n raw a
unfolding parse_at
parse_at-IsParsed n raw i a h = ground arith

-- An address from ParseAddress keeps its text, and its user, domain and text are within 64, 255 and
-- 256 bytes.
pub parse_address-IsParsed :
    (n : Normalizer) (raw : Bytes) (a : Address) → parse_address n raw ≡ ok a → IsParsed n raw a
unfolding parse_address
parse_address-IsParsed n [] a h = ground arith
parse_address-IsParsed n (c ∷ raw) a h =
    ground (arith, λ (i : ℕ). parse_at-IsParsed n (c ∷ raw) i a)

-- An address from ParseAddress that was written to the database is read back as it was, if the
-- driver hands the text over as a string.
pub scan-to_string :
    (n : Normalizer) (raw : Bytes) (a : Address)
    → parse_address n raw ≡ ok a
    → scan_address n (string_value (to_string a)) ≡ ok a
unfolding scan_address
scan-to_string n raw a h = ap (parse_address n) (parse_address-IsParsed n raw a h).raw_kept ∙ h

last_index-none : (c : ℕ) (xs : Bytes) → last_index c xs ≡ none → any (λ x. x == c) xs ≡ false
unfolding last_index
last_index-none c [] h = refl
last_index-none c (x ∷ xs) h = ground (arith, last_index-none c xs)

last_index-splits :
    (c : ℕ) (xs : Bytes) (i : ℕ)
    → last_index c xs ≡ some i
    → (xs ≡ take i xs ++ (c ∷ drop (suc i) xs)) × (any (λ x. x == c) (drop (suc i) xs) ≡ false)
unfolding last_index
last_index-splits c [] i h = cc
last_index-splits c (x ∷ xs) zero h = ground (arith, last_index-none c xs)
last_index-splits c (x ∷ xs) (suc i) h = ground (arith, last_index-splits c xs i)

-- The user is what the normalizer makes of the text before the last `@`, and the domain of the
-- text behind it.
pub record Splits (n : Normalizer) (raw : Bytes) (a : Address) : Type 0 where
  pub name : Bytes
  pub host : Bytes
  pub joined : raw ≡ name ++ (b'@' ∷ host)
  pub last : any (λ x. x == b'@') host ≡ false
  pub user_of : n.user name ≡ ok a.user
  pub domain_of : n.domain host ≡ ok a.domain

parse_at-Splits :
    (n : Normalizer) (raw : Bytes) (i : ℕ) (a : Address)
    → last_index b'@' raw ≡ some i
    → parse_at n raw i ≡ ok a
    → Splits n raw a
unfolding parse_at
parse_at-Splits n raw i a p h =
    let (joined, last) = last_index-splits b'@' raw i p in
    record {
      name = take i raw;
      host = drop (suc i) raw;
      joined = joined;
      last = last;
      user_of = ground arith;
      domain_of = ground arith;
    }

-- ParseAddress accepts a text that is not empty only if it has an `@`; it splits at the last one.
pub parse_address-Splits :
    (n : Normalizer) (raw : Bytes) (a : Address)
    → raw ≢ []
    → parse_address n raw ≡ ok a
    → Splits n raw a
unfolding parse_address
parse_address-Splits n [] a ne h = absurd (ne refl)
parse_address-Splits n (c ∷ raw) a ne h = go (last_index b'@' (c ∷ raw)) refl
  where
    go_none : err invalid_address_format ≡ ok a → Splits n (c ∷ raw) a
    go_none q = cc

    go : (o : Option ℕ) → last_index b'@' (c ∷ raw) ≡ o → Splits n (c ∷ raw) a
    go none p = go_none (rw (p, parse_address) at h)
    go (some i) p = parse_at-Splits n (c ∷ raw) i a p (rw (p, parse_address) at h)
