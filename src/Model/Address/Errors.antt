-- ===== src/Model/Address/Errors.antt =====
-- The errors of ParseAddress in internal/model/address.go.
use briefmail.Base.{ℕ, suc, ◌≢◌, ◌≡◌, refl, arith, Option, none, some, [], ◌∷◌, Bytes, take, drop}
use briefmail.Outcome.{no_rows, invalid_address_format, err}
use briefmail.Model.Address.{Normalizer, parse_at, parse_address, last_index}

-- The errors of the normalizer are its own.
pub record IsNormalizer (n : Normalizer) : Type 0 where
  pub user_error : (x : Bytes) → n.user x ≢ err no_rows
  pub domain_error : (x : Bytes) → n.domain x ≢ err no_rows

module _ (n : Normalizer) (h : IsNormalizer n) where
  parse_at-error : (raw : Bytes) (i : ℕ) → parse_at n raw i ≢ err no_rows
  unfolding parse_at
  parse_at-error raw i p =
      ground (arith, h.user_error (take i raw), h.domain_error (drop (suc i) raw))

  by_at :
      (raw : Bytes) (o : Option ℕ)
      → last_index b'@' raw ≡ o
      → elim o [ none ↦ err invalid_address_format | some i ↦ parse_at n raw i ] ≢ err no_rows
  by_at raw none q p = cc
  by_at raw (some i) q p = parse_at-error raw i p

  pub parse-error : (raw : Bytes) → parse_address n raw ≢ err no_rows
  unfolding parse_address
  parse-error [] p = cc
  parse-error (c ∷ raw) p = by_at (c ∷ raw) (last_index b'@' (c ∷ raw)) refl p
