-- ===== src/Dns.antt =====
-- internal/dns: resolver.go and default.go
use briefmail.Base.{ℕ, List, [], ◌∷◌, Bytes}
use briefmail.Outcome.{Exec, pure, ◌>>=◌}

pub record Mx : Type 0 where
  pub preference : ℕ
  pub mx : Bytes

-- the records of an answer, as the type switches see them
pub data Rr : Type 0 where
  -- *dns.A
  a_rr : Bytes → Rr
  -- *dns.MX
  mx_rr : Mx → Rr
  other_rr : Rr

pub data QueryType : Type 0 where
  type_a type_mx : QueryType

-- github.com/miekg/dns: Fqdn, and Exchange with the resolver's address, which answers a question of
-- class INET by the records of the answer section. `W` is what a call changes.
pub record Resolver (W : Type 0) : Type 0 where
  pub fqdn : Bytes → Bytes
  pub exchange : Bytes → QueryType → Exec W (List Rr)

-- (*Resolver).query
unfoldable pub query : {W : Type 0} → Resolver W → Bytes → QueryType → Exec W (List Rr)
query r domain t = r.exchange (r.fqdn domain) t

-- the loop of QueryA
unfoldable pub only_a : List Rr → List Bytes
only_a [] = []
only_a (a_rr ip ∷ rest) = ip ∷ only_a rest
only_a (mx_rr _ ∷ rest) = only_a rest
only_a (other_rr ∷ rest) = only_a rest

-- (*Resolver).QueryA
unfoldable pub query_a : {W : Type 0} → Resolver W → Bytes → Exec W (List Bytes)
unfolding query only_a
query_a r domain = do answer ← query r domain type_a; pure (only_a answer)

-- the loop of QueryMX
unfoldable pub only_mx : List Rr → List Mx
only_mx [] = []
only_mx (a_rr _ ∷ rest) = only_mx rest
only_mx (mx_rr m ∷ rest) = m ∷ only_mx rest
only_mx (other_rr ∷ rest) = only_mx rest

-- (*Resolver).QueryMX
unfoldable pub query_mx : {W : Type 0} → Resolver W → Bytes → Exec W (List Mx)
unfolding query only_mx
query_mx r domain = do answer ← query r domain type_mx; pure (only_mx answer)
