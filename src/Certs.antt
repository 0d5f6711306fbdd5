-- ===== src/Certs.antt =====
-- internal/certs: certs.go, files.go and traefik.go. A time.Time is a number, 0 the zero time.
pub mod Fresh
pub mod Source
use briefmail.Base.{
  ℕ, Bool, Option, none, some, List, [], ◌∷◌, ◌++◌, Bytes, codes, equal, ltb, if◌then◌else◌,
}
use briefmail.Outcome.{Error, panic, Result, ok, err, Exec, pure, raise, lift, ◌>>=◌}

-- an entry of an acme.json
pub record Entry : Type 0 where
  pub main : Bytes
  pub crt : Bytes
  pub key : Bytes

-- the parts of an acme.json that Load decodes, of version 1 and of version 2
pub record Acme : Type 0 where
  pub entries : List Entry
  pub letsencrypt : List Entry

-- The calls of os, crypto/tls, encoding/json and encoding/base64; `C` is a *tls.Certificate, and `W`
-- what a call changes.
pub record Os (W C : Type 0) : Type 0 where
  -- the time of os.Stat
  pub stat : Bytes → Exec W ℕ
  -- tls.LoadX509KeyPair
  pub load_key_pair : Bytes → Bytes → Exec W C
  -- os.Open and the decoder
  pub read_acme : Bytes → Exec W Acme
  pub decode_base64 : Bytes → Result Bytes
  -- tls.X509KeyPair
  pub key_pair : Bytes → Bytes → Result C
  -- fmt.Errorf of "no certificate for domain"
  pub no_certificate : Error

pub record CertSource (W C : Type 0) : Type 0 where
  pub last_update : Exec W ℕ
  pub load : Exec W C

module _ {W C : Type 0} (os : Os W C) where
  -- the later of two times
  abbrev later : ℕ → ℕ → ℕ
  later t u = if ltb t u then u else t

  -- the loop of LastUpdate of files.go, from the time `t` on
  unfoldable pub latest : List Bytes → ℕ → Exec W ℕ
  latest [] t w = (ok t, w)
  latest (file ∷ files) t w =
      let r = os.stat file w in
      elim r.0 [ err e ↦ (err e, r.1) | ok u ↦ latest files (later t u) r.1 ]

  -- newFilesCertSource, with its two settings: LastUpdate and Load of files.go
  unfoldable pub files_source : Bytes → Bytes → CertSource W C
  unfolding latest
  files_source crt key = record {
    last_update = latest (crt ∷ key ∷ []) 0;
    load = os.load_key_pair crt key;
  }

  -- the body of the loop, for the entry of the domain
  unfoldable pub certificate_of : Entry → Result C
  certificate_of e = elim (os.decode_base64 e.crt) [
    | err x ↦ err x
    | ok crt ↦ elim (os.decode_base64 e.key) [ err x ↦ err x | ok key ↦ os.key_pair crt key ]
  ]

  -- the loop over the entries
  unfoldable pub find_certificate : Bytes → List Entry → Result C
  unfolding certificate_of equal
  find_certificate domain [] = err os.no_certificate
  find_certificate domain (e ∷ es) =
      let rest = find_certificate domain es in
      if equal e.main domain then certificate_of e else rest

  -- newTraefikCertSource: LastUpdate and Load of traefik.go
  unfoldable pub traefik_source : Bytes → Bytes → CertSource W C
  unfolding find_certificate
  traefik_source acme domain = record {
    last_update = os.stat acme;
    load = do
      acme_data ← os.read_acme acme
      lift (find_certificate domain (acme_data.entries ++ acme_data.letsencrypt));
  }

-- what the closure of NewTlsConfig keeps
pub record Cached (C : Type 0) : Type 0 where
  pub last_cert : Option C
  pub last_time : ℕ

-- GetCertificate of NewTlsConfig, which holds its lock throughout. A source that is nil is called all
-- the same.
unfoldable pub get_certificate :
    {W C : Type 0} → Option (CertSource W C) → Exec (Cached C × W) (Option C)
get_certificate none s = (err panic, s)
get_certificate (some source) (c, w) =
    let r = source.last_update w in
    elim r.0 [
      | err e ↦ (err e, (c, r.1))
      | ok t ↦
          let l = source.load r.1 in
          if ltb c.last_time t
          then elim l.0 [
            | err e ↦ (err e, (c, l.1))
            | ok cert ↦ (ok (some cert), (record { last_cert = some cert; last_time = t }, l.1))
          ]
          else (ok c.last_cert, (c, r.1))
    ]
