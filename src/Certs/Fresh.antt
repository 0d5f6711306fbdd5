-- ===== src/Certs/Fresh.antt =====
-- Which certificate the server of internal/certs presents.
use briefmail.Base.{
  ℕ, ◌≤◌, ◌<◌, ◌≡◌, refl, sym, ap, ◌∙◌, ◌⊎◌, inl, inr, true, false, Bool-cases, Option, some, List,
  [], ◌∷◌, ◌++◌, Bytes, equal, ltb, if◌then◌else◌, arith, any,
}
use briefmail.Outcome.{Result, ok, err}
use briefmail.Certs.{
  Entry, Acme, Os, CertSource, Cached, latest, files_source, certificate_of, find_certificate,
  traefik_source, get_certificate,
}

module _ {W C : Type 0} (source : CertSource W C) where
  -- What a call of GetCertificate that returns no error has seen and done.
  pub data Served (c : Cached C) (w : W) (cert : Option C) : Cached C × W → Type 0 where
    -- the source is no newer, and is not loaded
    kept :
        (t : ℕ)
        → (source.last_update w).0 ≡ ok t
        → t ≤ c.last_time
        → cert ≡ c.last_cert
        → Served c w cert (c, (source.last_update w).1)
    -- the source is newer, and what was loaded from it is kept
    loaded :
        (t : ℕ) (x : C)
        → (source.last_update w).0 ≡ ok t
        → c.last_time < t
        → (source.load (source.last_update w).1).0 ≡ ok x
        → cert ≡ some x
        → Served c w cert
            (record { last_cert = some x; last_time = t }, (source.load (source.last_update w).1).1)

  -- GetCertificate that returns a certificate has either found the source no newer than what it
  -- keeps, which it then returns without a load, or has loaded the source and keeps that, with its
  -- time.
  pub get_certificate-Served :
      (c : Cached C) (w : W) (cert : Option C)
      → (get_certificate (some source) (c, w)).0 ≡ ok cert
      → Served c w cert (get_certificate (some source) (c, w)).1
  unfolding get_certificate
  get_certificate-Served c w cert p = by_time (source.last_update w).0 refl
    where
      the_cert : {x : Option C} → ok x ≡ ok cert → cert ≡ x
      the_cert q = cc

      by_load :
          (t : ℕ) (x : Result C)
          → (source.last_update w).0 ≡ ok t
          → ltb c.last_time t ≡ true
          → (source.load (source.last_update w).1).0 ≡ x
          → Served c w cert (get_certificate (some source) (c, w)).1
      by_load t (err e) q newer l = cc (rw (get_certificate, q, newer, l) at p)
      by_load t (ok x) q newer l =
          rw (get_certificate, q, newer, l)
            (loaded t x q (ground (arith, newer)) l
              (the_cert (rw (get_certificate, q, newer, l) at p)))

      by_time :
          (r : Result ℕ)
          → (source.last_update w).0 ≡ r
          → Served c w cert (get_certificate (some source) (c, w)).1
      by_time (err e) q = cc (rw (q, get_certificate) at p)
      by_time (ok t) q = elim (Bool-cases (ltb c.last_time t)) [
        | inl newer ↦ by_load t (source.load (source.last_update w).1).0 q newer refl
        | inr old ↦
            rw (get_certificate, q, old)
              (kept t q (ground (arith, old)) (the_cert (rw (get_certificate, q, old) at p)))
      ]

  not_newer : {a b : ℕ} → b ≤ a → ltb a b ≡ false
  not_newer h = ground (arith, h)

  same_time :
      (c : Cached C) (w : W) (u : ℕ)
      → (source.last_update w).0 ≡ ok u
      → u ≤ c.last_time
      → get_certificate (some source) (c, w) ≡ (ok c.last_cert, (c, (source.last_update w).1))
  unfolding get_certificate
  same_time c w u p h = rw (get_certificate, p, not_newer h) refl

  -- A second call of GetCertificate right after one that returned a certificate returns the same and
  -- loads nothing, when the source has not become newer meanwhile.
  pub get_certificate-again :
      (c : Cached C) (w : W) (cert : Option C) (t u : ℕ)
      → (source.last_update w).0 ≡ ok t
      → (get_certificate (some source) (c, w)).0 ≡ ok cert
      → (source.last_update (get_certificate (some source) (c, w)).1.1).0 ≡ ok u
      → u ≤ t
      → get_certificate (some source) (get_certificate (some source) (c, w)).1 ≡ (
        ok cert,
        (
          (get_certificate (some source) (c, w)).1.0,
          (source.last_update (get_certificate (some source) (c, w)).1.1).1,
        ),
      )
  get_certificate-again c w cert t u now first next le =
      unchanged (get_certificate (some source) (c, w)).1 (get_certificate-Served c w cert first)
        next
    where
      the_time : {a b : ℕ} → ok a ≡ ok b → a ≡ b
      the_time q = cc

      unchanged :
          (s : Cached C × W)
          → Served c w cert s
          → (source.last_update s.1).0 ≡ ok u
          → get_certificate (some source) s ≡ (ok cert, (s.0, (source.last_update s.1).1))
      unchanged s (kept t' q h is) n =
          same_time c (source.last_update w).1 u n (omega (arith, le, h, the_time (sym now ∙ q)))
          ∙ ap (λ x. (ok x, (c, (source.last_update (source.last_update w).1).1))) (sym is)
      unchanged s (loaded t' x q h l is) n =
          same_time (record { last_cert = some x; last_time = t' })
            (source.load (source.last_update w).1).1 u n (omega (arith, le, the_time (sym now ∙ q)))
          ∙ ap
              (λ y. (
                ok y,
                (
                  record { last_cert = some x; last_time = t' },
                  (source.last_update (source.load (source.last_update w).1).1).1,
                ),
              ))
              (sym is)

-- the later of two times
pub record IsLatest (t a b : ℕ) : Type 0 where
  pub first : a ≤ t
  pub second : b ≤ t
  pub either : (t ≡ a) ⊎ (t ≡ b)

module _ {W C : Type 0} (os : Os W C) where
  -- LastUpdate of the files is the later of the times of both, so a change of either is noticed.
  pub files_source-IsLatest :
      (crt key : Bytes) (w : W) (t : ℕ)
      → ((files_source os crt key).last_update w).0 ≡ ok t
      → (a b : ℕ) × ((os.stat crt w).0 ≡ ok a)
        × ((os.stat key (os.stat crt w).1).0 ≡ ok b)
        × IsLatest t a b
  unfolding files_source latest
  files_source-IsLatest crt key w t p =
      by_stat (os.stat crt w).0 (os.stat key (os.stat crt w).1).0 refl refl
    where
      later_IsLatest :
          (a b : ℕ)
          → (if ltb (if ltb 0 a then a else 0) b then b else (if ltb 0 a then a else 0)) ≡ t
          → IsLatest t a b
      later_IsLatest a b q = record {
        first = ground (arith, q);
        second = ground (arith, q);
        either = ground (arith, q);
      }

      the_time : {x : ℕ} → ok x ≡ ok t → x ≡ t
      the_time q = cc

      by_stat :
          (x y : Result ℕ)
          → (os.stat crt w).0 ≡ x
          → (os.stat key (os.stat crt w).1).0 ≡ y
          → (a b : ℕ) × ((os.stat crt w).0 ≡ ok a)
            × ((os.stat key (os.stat crt w).1).0 ≡ ok b)
            × IsLatest t a b
      by_stat (err e) y q r = cc (rw (files_source, latest, q) at p)
      by_stat (ok a) (err e) q r = cc (rw (files_source, latest, q, r) at p)
      by_stat (ok a) (ok b) q r =
          (a, b, q, r, later_IsLatest a b (the_time (rw (files_source, latest, q, r) at p)))

  find_certificate-append :
      (domain : Bytes) (xs ys : List Entry)
      → any (λ (e : Entry). equal e.main domain) xs ≡ false
      → find_certificate os domain (xs ++ ys) ≡ find_certificate os domain ys
  unfolding find_certificate
  find_certificate-append domain [] ys p = refl
  find_certificate-append domain (x ∷ xs) ys p = elim (Bool-cases (equal x.main domain)) [
    | inl is ↦ cc (rw is at p)
    | inr is_not ↦ rw is_not (find_certificate-append domain xs ys (rw is_not at p))
  ]

  find_certificate-head :
      (domain : Bytes) (e : Entry) (ys : List Entry)
      → equal e.main domain ≡ true
      → find_certificate os domain (e ∷ ys) ≡ certificate_of os e
  unfolding find_certificate
  find_certificate-head domain e ys p = rw p refl

  -- Load of an acme.json takes the first entry of the domain, those of version 1 before those of
  -- version 2: with none of them in what comes before, the certificate is that of the entry, and what
  -- comes behind it is not looked at.
  pub traefik_source-load :
      (acme domain : Bytes) (w : W) (read : Acme) (xs ys : List Entry) (e : Entry)
      → (os.read_acme acme w).0 ≡ ok read
      → read.entries ++ read.letsencrypt ≡ xs ++ (e ∷ ys)
      → any (λ (x : Entry). equal x.main domain) xs ≡ false
      → equal e.main domain ≡ true
      → ((traefik_source os acme domain).load w).0 ≡ certificate_of os e
  unfolding traefik_source
  traefik_source-load acme domain w read xs ys e p q before is =
      rw (traefik_source, p, q)
        (find_certificate-append domain xs (e ∷ ys) before ∙ find_certificate-head domain e ys is)
