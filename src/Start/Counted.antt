-- ===== src/Start/Counted.antt =====
-- The wait group that `start` of cmd/briefmail/start.go leaves.
use briefmail.Base.{◌+◌, ◌≡◌, refl, ◌∙◌, Option, List, [], ◌∷◌, length, arith, Bytes}
use briefmail.Outcome.{Result, ok, err, continue}
use briefmail.Start.{
  ServerConfig, ProtoName, InstanceManager, new_manager, start, start_protos, start_all,
  unmarshal_server_configs,
}

module _ {C : Type 0} where
  start_all-wg :
      (proto : ProtoName) (configs : List ServerConfig) (m : InstanceManager C)
      → (start_all proto configs m).wg ≡ m.wg
  unfolding start_all
  start_all-wg proto [] m = refl
  start_all-wg proto (config ∷ configs) m = start_all-wg proto configs _

  proto-wg :
      (unmarshal_key : Bytes → Result (List ServerConfig)) (proto : ProtoName)
      (protos : List ProtoName) (m : InstanceManager C) (r : Result (List ServerConfig))
      → unmarshal_server_configs unmarshal_key proto ≡ r
      → ((n : InstanceManager C) → (start_protos unmarshal_key protos n).1.wg ≡ n.wg)
      → (start_protos unmarshal_key (proto ∷ protos) m).1.wg ≡ m.wg
  unfolding start_protos
  proto-wg unmarshal_key proto protos m (ok configs) e rest =
      rw (e, start_protos) (rest (start_all proto configs m) ∙ start_all-wg proto configs m)
  proto-wg unmarshal_key proto protos m (err x) e rest = rw (e, start_protos) refl

  start_protos-wg :
      (unmarshal_key : Bytes → Result (List ServerConfig)) (protos : List ProtoName)
      (m : InstanceManager C)
      → (start_protos unmarshal_key protos m).1.wg ≡ m.wg
  start_protos-wg unmarshal_key [] m = unfold start_protos in refl
  start_protos-wg unmarshal_key (proto ∷ protos) m =
      proto-wg unmarshal_key proto protos m _ refl (start_protos-wg unmarshal_key protos)

  counted :
      (r : Result (Unit {0}) × InstanceManager C)
      → r.1.wg ≡ 0
      → let t = continue r.0 (λ _ i. (ok tt, record i { wg = i.wg + length i.servers })) r.1 in
        t.0 ≡ ok tt → t.1.wg ≡ length t.1.servers
  counted (ok _, m) e h = omega (arith, e)
  counted (err _, m) e h = cc

  -- The wait group of a manager that has started holds the number of its servers.
  pub start-counted :
      (unmarshal_key : Bytes → Result (List ServerConfig)) (tls_config : Option C)
      (protos : List ProtoName)
      → let r = start unmarshal_key protos (new_manager tls_config) in
        r.0 ≡ ok tt → r.1.wg ≡ length r.1.servers
  unfolding start
  start-counted unmarshal_key tls_config protos =
      counted (start_protos unmarshal_key protos (new_manager tls_config))
        (start_protos-wg unmarshal_key protos (new_manager tls_config))
