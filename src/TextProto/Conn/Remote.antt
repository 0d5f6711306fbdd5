-- ===== src/TextProto/Conn/Remote.antt =====
-- wrapConn and RemoteAddr of internal/textproto/conn.go
use briefmail.Base.{
  ℕ, suc, ◌≡◌, refl, sym, ap, ◌∙◌, ◌<◌, ◌↔◌, Bool, Bool-cases, inl, inr, true, false, none, some,
  [], ◌∷◌, ◌++◌, Bytes, codes, equal, equal_iff, ◌==◌, if◌then◌else◌, take, any, length,
  length-take, arith,
}
use briefmail.Outcome.{panic, Result, ok, err, Faults}
use briefmail.Text.{index_byte}
use briefmail.TextProto.Conn.{Conn}
use briefmail.TextProto.Dot.{Reader}

-- (*conn).RemoteAddr, of the text of the address of the wrapped connection
unfoldable pub remote_addr_of : Bytes → Result Bytes
unfolding equal index_byte
remote_addr_of remote =
    if equal remote (codes "pipe")
    then ok (codes "127.0.0.1")
    else elim (index_byte b':' remote) [ some i ↦ ok (take i remote) | none ↦ err panic ]

-- wrapConn, with newReader and newWriter, for a connection whose RemoteAddr is `remote_addr`
abbrev pub wrap_conn : Reader → Faults → Bytes → Conn
wrap_conn reader faults remote_addr = record {
  reader = reader;
  out = [];
  is_tls = false;
  remote_addr = remote_addr;
  faults = faults;
}

abbrev pub is_colon : ℕ → Bool
is_colon c = c == b':'

index_byte-any :
    (h p : Bytes) → any is_colon h ≡ false → index_byte b':' (h ++ (b':' ∷ p)) ≡ some (length h)
unfolding index_byte
index_byte-any [] p e = refl
index_byte-any (c ∷ h) p e = ground (arith, index_byte-any h p)

-- the first colon is not behind any other
index_byte-le :
    (h p : Bytes)
    → any is_colon h ≡ true
    → (i : ℕ) × (index_byte b':' (h ++ (b':' ∷ p)) ≡ some i) × (i < length h)
unfolding index_byte
index_byte-le [] p e = cc
index_byte-le (c ∷ h) p e = elim (Bool-cases (is_colon c)) [
  | inl yes_colon ↦ (0, rw yes_colon refl, omega arith)
  | inr no_colon ↦
      let (i, at, below) = index_byte-le h p (ground arith) in
      (suc i, rw (no_colon, at) refl, omega (arith, below))
]

any-colon : (h p : Bytes) → any is_colon (h ++ (b':' ∷ p)) ≡ true
any-colon [] p = refl
any-colon (c ∷ h) p = ground (arith, any-colon h p)

not-pipe : (h p : Bytes) → equal (h ++ (b':' ∷ p)) (codes "pipe") ≡ false
not-pipe h p = elim (Bool-cases (equal (h ++ (b':' ∷ p)) (codes "pipe"))) [
  | inl e ↦ absurd (pipe-colon (sym (ap (any is_colon) ((equal_iff _ _).0 e)) ∙ any-colon h p))
  | inr e ↦ e
]
  where
    pipe-colon : any is_colon (codes "pipe") ≡ true → ⊥
    pipe-colon e = cc

remote_addr-at :
    (h p : Bytes) (i : ℕ)
    → index_byte b':' (h ++ (b':' ∷ p)) ≡ some i
    → remote_addr_of (h ++ (b':' ∷ p)) ≡ ok (take i (h ++ (b':' ∷ p)))
unfolding remote_addr_of
remote_addr-at h p i at = rw (not-pipe h p, at) refl

take-append_self : (h r : Bytes) → take (length h) (h ++ r) ≡ h
take-append_self [] r = refl
take-append_self (c ∷ h) r = ap (λ t. c ∷ t) (take-append_self h r)

-- The remote address of a connection from `host:port` is the host exactly when the host has no colon
-- of its own: it is that of IPv4, and never that of IPv6.
pub remote_addr_of-host :
    (host port : Bytes)
    → (remote_addr_of (host ++ (b':' ∷ port)) ≡ ok host) ↔ (any is_colon host ≡ false)
remote_addr_of-host host port = (to, from)
  where
    from : any is_colon host ≡ false → remote_addr_of (host ++ (b':' ∷ port)) ≡ ok host
    from e =
        remote_addr-at host port (length host) (index_byte-any host port e)
        ∙ ap (λ t. ok t) (take-append_self host (b':' ∷ port))

    the_ok : {x y : Bytes} → ok x ≡ ok y → x ≡ y
    the_ok q = cc

    to : remote_addr_of (host ++ (b':' ∷ port)) ≡ ok host → any is_colon host ≡ false
    to e = elim (Bool-cases (any is_colon host)) [
      | inl some_colon ↦
          let (i, at, below) = index_byte-le host port some_colon in
          let q = the_ok (sym (remote_addr-at host port i at) ∙ e) in
          absurd (omega (arith, below, ap length q, length-take i (host ++ (b':' ∷ port))))
      | inr no_colon ↦ no_colon
    ]
