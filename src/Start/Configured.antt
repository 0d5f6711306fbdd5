-- ===== src/Start/Configured.antt =====
-- Which servers instanceManager starts for a configuration.
use mathlib.Core.List.Perm
use mathlib.Core.List.{perm_append_comm, Perm}
use briefmail.Base.{
  ◌+◌, ◌≡◌, refl, sym, ap, ◌∙◌, Option, List, [], ◌∷◌, ◌++◌, map, append_assoc, append-nil, length,
  length-append, arith, Bytes,
}
use briefmail.Outcome.{Result, ok, err}
use briefmail.Start.{
  ServerConfig, ProtoName, Launch, InstanceManager, unmarshal_server_configs, launch, start_all,
  start_protos, start,
}

module _ {C : Type 0} where
  launches : Option C → ProtoName → List ServerConfig → List (Launch C)
  launches tls_config proto = map (launch tls_config proto)

  start_all-launches :
      (proto : ProtoName) (configs : List ServerConfig) (i : InstanceManager C)
      → start_all proto configs i
        ≡ record i { servers = i.servers ++ launches i.tls_config proto configs }
  unfolding start_all launches
  start_all-launches proto [] i = ap (λ l. record i { servers = l }) (sym (append-nil _))
  start_all-launches proto (config ∷ configs) i =
      start_all-launches proto configs
        (record i { servers = i.servers ++ (launch i.tls_config proto config ∷ []) })
      ∙ ap (λ l. record i { servers = l }) (append_assoc i.servers _ _)

  -- Both failed, with the wait group as it was, or both started the same servers and counted them.
  abbrev pub Agree :
      InstanceManager C
      → Result (Unit {0}) × InstanceManager C
      → Result (Unit {0}) × InstanceManager C
      → Type 0
  Agree i (err _, r) (err _, s) = (r.wg ≡ i.wg) × (s.wg ≡ i.wg)
  Agree i (ok _, r) (ok _, s) =
      Perm r.servers s.servers × (r.wg ≡ i.wg + length r.servers) × (s.wg ≡ r.wg)
  Agree i (ok _, r) (err _, s) = ⊥
  Agree i (err _, r) (ok _, s) = ⊥

module _ {C : Type 0} (unmarshal_key : Bytes → Result (List ServerConfig))
    (i : InstanceManager C) where
  start-both :
      (x y : ProtoName) (cs ds : List ServerConfig)
      → unmarshal_server_configs unmarshal_key x ≡ ok cs
      → unmarshal_server_configs unmarshal_key y ≡ ok ds
      → start unmarshal_key (x ∷ y ∷ []) i
        ≡ let servers = (i.servers ++ launches i.tls_config x cs) ++ launches i.tls_config y ds in
          (ok tt, record i { servers = servers; wg = i.wg + length servers })
  unfolding start
  start-both x y cs ds p q =
      rw (p, q, start_protos, start_all-launches x cs i, start_all-launches y ds _) refl

  regroup : {A : Type 0} (s a b : List A) → Perm ((s ++ a) ++ b) ((s ++ b) ++ a)
  regroup s a b =
      rw (append_assoc s a b, append_assoc s b a) (Perm.append_left s (perm_append_comm a b))

  wg_regroup :
      (xs ys : List (Launch C))
      → i.wg + length ((i.servers ++ ys) ++ xs) ≡ i.wg + length ((i.servers ++ xs) ++ ys)
  wg_regroup xs ys = omega (
    arith,
    length-append (i.servers ++ ys) xs,
    length-append (i.servers ++ xs) ys,
    length-append i.servers xs,
    length-append i.servers ys,
  )

  agree :
      (x y : ProtoName) (r s : Result (List ServerConfig))
      → unmarshal_server_configs unmarshal_key x ≡ r
      → unmarshal_server_configs unmarshal_key y ≡ s
      → Agree i (start unmarshal_key (x ∷ y ∷ []) i) (start unmarshal_key (y ∷ x ∷ []) i)
  agree x y (ok cs) (ok ds) p q =
      rw (start-both x y cs ds p q, start-both y x ds cs q p)
        (regroup i.servers _ _, refl, wg_regroup _ _)
  agree x y (ok cs) (err e) p q =
      unfold start in rw (p, q, start_protos) (ap (λ m. m.wg) (start_all-launches x cs i), refl)
  agree x y (err e) (ok ds) p q =
      unfold start in rw (p, q, start_protos, p) (refl, ap (λ m. m.wg) (start_all-launches y ds i))
  agree x y (err e) (err f) p q = unfold start in rw (p, q, start_protos) (refl, refl)

  -- The order in which the map of the protocols is ranged over does not matter: `start` fails in both
  -- orders, and leaves the wait group alone, or it starts the same servers in both, and adds their
  -- number to the wait group.
  pub start-Agree :
      (x y : ProtoName)
      → Agree i (start unmarshal_key (x ∷ y ∷ []) i) (start unmarshal_key (y ∷ x ∷ []) i)
  start-Agree x y = agree x y _ _ refl refl
