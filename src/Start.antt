-- ===== src/Start.antt =====
-- cmd/briefmail/start.go: the servers that instanceManager starts. `C` is a *tls.Config.
pub mod Process
pub mod Instances
mod Counted
mod Contexts
mod Orderly
pub mod Early
pub mod Graceful
pub mod Configured
use briefmail.Base.{
  ℕ, ◌+◌, Bool, Option, none, List, [], ◌∷◌, ◌++◌, length, Bytes, codes, if◌then◌else◌,
}
use briefmail.Outcome.{Result, ok, err, Action, lift, ◌>>=◌, ◌>>◌}

pub record ServerConfig : Type 0 where
  pub address : Bytes
  pub tls : Bool

-- the keys of the map of protocols
pub data ProtoName : Type 0 where
  smtp pop3 : ProtoName

abbrev pub key : ProtoName → Bytes
key smtp = codes "smtp"
key pop3 = codes "pop3"

-- a server of NewServer, and the address that it is to listen at
pub record Launch (C : Type 0) : Type 0 where
  pub proto : ProtoName
  pub tls_config : Option C
  pub address : Bytes

pub record InstanceManager (C : Type 0) : Type 0 where
  pub tls_config : Option C
  pub servers : List (Launch C)
  pub wg : ℕ

-- The variable is read behind the call of viper.UnmarshalKey, which fills it.
abbrev pub unmarshal_server_configs :
    (Bytes → Result (List ServerConfig)) → ProtoName → Result (List ServerConfig)
unmarshal_server_configs unmarshal_key name = unmarshal_key (key name)

abbrev pub launch : {C : Type 0} → Option C → ProtoName → ServerConfig → Launch C
launch tls_config proto config = record {
  proto = proto;
  tls_config = if config.tls then tls_config else none;
  address = config.address;
}

-- the inner loop
start_all : {C : Type 0} → ProtoName → List ServerConfig → InstanceManager C → InstanceManager C
start_all proto [] i = i
start_all proto (config ∷ configs) i =
    start_all proto configs
      (record i { servers = i.servers ++ (launch i.tls_config proto config ∷ []) })

module _ {C : Type 0} (unmarshal_key : Bytes → Result (List ServerConfig)) where
  -- the outer loop, over the keys of the map in the order in which it gives them
  start_protos : List ProtoName → Action (InstanceManager C)
  unfolding start_all
  start_protos [] i = (ok tt, i)
  start_protos (proto ∷ protos) i = elim (unmarshal_server_configs unmarshal_key proto) [
    | err e ↦ (err e, i)
    | ok configs ↦ start_protos protos (start_all proto configs i)
  ]

  unfoldable pub start : List ProtoName → Action (InstanceManager C)
  unfolding start_protos
  start protos = do start_protos protos; λ i. (ok tt, record i { wg = i.wg + length i.servers })

-- the instanceManager that `run` makes
abbrev pub new_manager : {C : Type 0} → Option C → InstanceManager C
new_manager tls_config = record { tls_config = tls_config; servers = []; wg = 0 }
