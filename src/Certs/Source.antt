-- ===== src/Certs/Source.antt =====
-- Which source NewCertSource of internal/certs/certs.go makes, and what a server does with it.
use briefmail.Base.{
  ◌≡◌, refl, ◌⊎◌, inl, inr, Option, none, some, Bytes, codes, equal, if◌then◌else◌,
}
use briefmail.Outcome.{Error, panic, Result, ok, err}
use briefmail.Settings.{Viper, IsViper, defaults, default_of}
use briefmail.Certs.{Os, CertSource, Cached, files_source, traefik_source, get_certificate}

module _ {W C : Type 0} (os : Os W C) (unknown_source : Bytes → Error) (v : Viper) where
  -- newFilesCertSource
  abbrev new_files_cert_source : CertSource W C
  new_files_cert_source =
      files_source os (v.get_string defaults (codes "tls.files.crt"))
        (v.get_string defaults (codes "tls.files.key"))

  -- newTraefikCertSource
  abbrev new_traefik_cert_source : CertSource W C
  new_traefik_cert_source =
      traefik_source os (v.get_string defaults (codes "tls.traefik.acme"))
        (v.get_string defaults (codes "tls.traefik.domain"))

  -- the switch, where fmt.Errorf makes an error of the text of the source
  choose : Bytes → Result (Option (CertSource W C))
  unfolding equal
  choose source =
      if equal source (codes "none")
      then ok none
      else if equal source (codes "files")
      then ok (some new_files_cert_source)
      else if equal source (codes "traefik")
      then ok (some new_traefik_cert_source)
      else err (unknown_source source)

  -- NewCertSource
  unfoldable pub new_cert_source : Result (Option (CertSource W C))
  unfolding choose
  new_cert_source = choose (v.get_string defaults (codes "tls.source"))

  none_source :
      v.get_string defaults (codes "tls.source") ≡ codes "none" → new_cert_source ≡ ok none
  unfolding new_cert_source
  none_source e = rw e refl

  -- Where no source is configured, or "none" is, NewCertSource succeeds with nil, on which every call
  -- of GetCertificate panics.
  pub new_cert_source-panic :
      IsViper v
      → (v.configured (codes "tls.source") ≡ none)
        ⊎ (v.configured (codes "tls.source") ≡ some (codes "none"))
      → (source : Option (CertSource W C)) × (new_cert_source ≡ ok source)
        × ((c : Cached C) (w : W) → (get_certificate source (c, w)).0 ≡ err panic)
  unfolding default_of get_certificate
  new_cert_source-panic k (inl e) =
      (none, none_source (k.unset defaults (codes "tls.source") e), λ c w. refl)
  new_cert_source-panic k (inr e) =
      (none, none_source (k.given defaults (codes "tls.source") (codes "none") e), λ c w. refl)
