-- ===== src/Hooks.antt =====
-- internal/smtp/hook: hook.go, spf.go and dnsbl.go
pub mod Rejection
pub mod Submission
pub mod Reversed
use briefmail.Base.{
  ℕ, zero, suc, ◌-◌, Bool, true, false, ◌||◌, not, Option, none, some, List, [], ◌∷◌, ◌++◌, Bytes,
  codes, ltb, ◌==◌, if◌then◌else◌, length,
}
use briefmail.Outcome.{Error, panic, Result, ok, err}
use briefmail.Dns.{Resolver, query_a}
use briefmail.Model.Address.{Address, to_string}
use briefmail.Smtp.Session.{HeaderField, HookResult}
use briefmail.Text.{split}

-- a result of github.com/zaccone/spf, as far as the hook looks at it, with its text
pub data SpfResult : Type 0 where
  spf_fail : SpfResult
  spf_other : Bytes → SpfResult

-- The configuration, net.IP, spf.CheckHost, whose error is logged only, and the resolver, as it
-- answers at the time.
pub record HookConfig : Type 0 where
  pub spf_enabled : Bool
  pub dnsbl_enabled : Bool
  pub dnsbl_server : Bytes
  -- `ip.To4() != nil`
  pub is_ip4 : Bytes → Bool
  -- `ip.String()`
  pub show_ip : Bytes → Bytes
  pub check_host : Bytes → Bytes → Bytes → SpfResult
  pub resolver : Resolver (Unit {0})
  -- whether the map of FromHooks is ranged over with "spf" first
  pub spf_first : Bool

abbrev pub FromHook : Type 0
FromHook = Bool → Bytes → Address → Result HookResult

-- `&Result{}`
abbrev pub empty_result : HookResult
empty_result = record { reject = false; headers = []; code = 0; text = [] }

abbrev pub rejection : Bytes → HookResult
rejection text = record { reject = true; headers = []; code = 550; text = text }

-- the value of the header that makeSpfHook adds
unfoldable pub received_spf : HookConfig → Bytes → Bytes → Address → Bytes
received_spf cfg result ip from =
    result
    ++ (codes " (with domain="
        ++ (from.domain
            ++ (codes " of sender="
                ++ (to_string from ++ (codes ") client-ip=" ++ (cfg.show_ip ip ++ codes ";"))))))

unfoldable pub on_spf : HookConfig → SpfResult → Bytes → Address → HookResult
unfolding received_spf
on_spf cfg spf_fail ip from = rejection (codes "you shall not pass")
on_spf cfg (spf_other result) ip from = record {
  reject = false;
  headers = record { key = codes "Received-SPF"; value = received_spf cfg result ip from } ∷ [];
  code = 0;
  text = [];
}

-- makeSpfHook
unfoldable pub spf_hook : HookConfig → FromHook
unfolding on_spf
spf_hook cfg submission ip from =
    if submission
    then ok empty_result
    else ok (on_spf cfg (cfg.check_host ip from.domain (to_string from)) ip from)

-- strings.Join with "."
unfoldable pub join_dots : List Bytes → Bytes
join_dots [] = []
join_dots (p ∷ []) = p
join_dots (p ∷ q ∷ ps) = p ++ (b'.' ∷ join_dots (q ∷ ps))

unfoldable pub pad : ℕ → List Bytes → List Bytes
pad zero ps = ps
pad (suc n) ps = [] ∷ pad n ps

unfoldable pub reverse_onto : List Bytes → List Bytes → List Bytes
reverse_onto [] out = out
reverse_onto (p ∷ ps) out = reverse_onto ps (p ∷ out)

-- The array `reversed`: places that no part reaches stay empty, and a fifth part has no place.
unfoldable pub reversed : Bytes → List Bytes → Result (List Bytes)
unfolding pad reverse_onto
reversed server parts =
    if ltb 4 (length parts)
    then err panic
    else ok (pad (4 - length parts) (reverse_onto parts (server ∷ [])))

-- the answer of the list
abbrev listed : Result (List Bytes) → Result HookResult
listed (err e) = err e
listed (ok []) = ok empty_result
listed (ok (_ ∷ _)) = ok (rejection (codes "I heard of you in the news!"))

-- makeDnsblHook
unfoldable pub dnsbl_hook : HookConfig → FromHook
unfolding split reversed join_dots query_a
dnsbl_hook cfg submission ip from =
    if submission || not (cfg.is_ip4 ip)
    then ok empty_result
    else elim (reversed cfg.dnsbl_server (split b'.' (cfg.show_ip ip))) [
      | err e ↦ err e
      | ok parts ↦ listed (query_a cfg.resolver (join_dots parts) tt).0
    ]

abbrev add_if : Bool → FromHook → List FromHook → List FromHook
add_if enabled hook hooks = if enabled then hook ∷ hooks else hooks

-- FromHooks
unfoldable pub from_hooks : HookConfig → List FromHook
unfolding spf_hook dnsbl_hook
from_hooks cfg =
    if cfg.spf_first
    then add_if cfg.spf_enabled (spf_hook cfg) (add_if cfg.dnsbl_enabled (dnsbl_hook cfg) [])
    else add_if cfg.dnsbl_enabled (dnsbl_hook cfg) (add_if cfg.spf_enabled (spf_hook cfg) [])
