-- ===== src/Hooks/Rejection.antt =====
-- Whom the hooks of internal/smtp/hook turn away.
use briefmail.Base.{
  ◌≡◌, ◌≢◌, sym, refl, ◌∙◌, ◌⊎◌, inl, inr, Bool, true, false, Bool-cases, List, [], ◌∷◌, Bytes,
  if◌then◌else◌, All,
}
use briefmail.Outcome.{Result, ok, err}
use briefmail.Dns.{query_a}
use briefmail.Hooks.{
  HookConfig, SpfResult, spf_fail, spf_other, FromHook, rejection, empty_result, on_spf, spf_hook,
  join_dots, reversed, dnsbl_hook, add_if, from_hooks,
}
use briefmail.Hooks.Submission.{run_from_hooks-submission}
use briefmail.Model.Address.{Address, to_string}
use briefmail.Smtp.Handlers.{Verdict, accept, reject, fail, add_headers, run_from_hooks}
use briefmail.Smtp.Session.{HeaderField, HookResult, Reply}
use briefmail.Text.{split}

-- The address is on the list: the name made of it has a record.
pub record IsListed (cfg : HookConfig) (ip : Bytes) : Type 0 where
  pub enabled : cfg.dnsbl_enabled ≡ true
  pub ip4 : cfg.is_ip4 ip ≡ true
  pub parts : List Bytes
  pub name : reversed cfg.dnsbl_server (split b'.' (cfg.show_ip ip)) ≡ ok parts
  pub first : Bytes
  pub more : List Bytes
  pub answer : (query_a cfg.resolver (join_dots parts) tt).0 ≡ ok (first ∷ more)

-- SPF says that the address may not send for the domain.
pub record IsForbidden (cfg : HookConfig) (ip : Bytes) (from : Address) : Type 0 where
  pub enabled : cfg.spf_enabled ≡ true
  pub verdict : cfg.check_host ip from.domain (to_string from) ≡ spf_fail

-- what a hook that rejects has found
record Founded (cfg : HookConfig) (ip : Bytes) (from : Address) (hook : FromHook) : Type 0 where
  ground_of :
      (r : HookResult)
      → hook false ip from ≡ ok r
      → r.reject ≡ true
      → (r.code ≡ 550) × (IsForbidden cfg ip from ⊎ IsListed cfg ip)

spf-Founded :
    (cfg : HookConfig) (ip : Bytes) (from : Address)
    → cfg.spf_enabled ≡ true
    → Founded cfg ip from (spf_hook cfg)
unfolding spf_hook on_spf
spf-Founded cfg ip from on = record {
  ground_of =
      λ r p rejects. by_result (cfg.check_host ip from.domain (to_string from)) refl r p rejects;
}
  where
    by_result :
        (x : SpfResult)
        → cfg.check_host ip from.domain (to_string from) ≡ x
        → (r : HookResult) → spf_hook cfg false ip from ≡ ok r
        → r.reject ≡ true
        → (r.code ≡ 550) × (IsForbidden cfg ip from ⊎ IsListed cfg ip)
    by_result spf_fail q r p rejects =
        (code_of (rw (spf_hook, q) at p), inl (record { enabled = on; verdict = q }))
      where
        code_of : {y : Bytes} → ok (rejection y) ≡ ok r → r.code ≡ 550
        code_of z = cc
    by_result (spf_other result) q r p rejects = absurd (lets_pass (rw (spf_hook, q) at p) rejects)
      where
        lets_pass :
            {hs : List HeaderField} {t : Bytes}
            → ok (record { reject = false; headers = hs; code = 0; text = t }) ≡ ok r
            → r.reject ≢ true
        lets_pass z w = cc

dnsbl-Founded :
    (cfg : HookConfig) (ip : Bytes) (from : Address)
    → cfg.dnsbl_enabled ≡ true
    → Founded cfg ip from (dnsbl_hook cfg)
unfolding dnsbl_hook
dnsbl-Founded cfg ip from on = record {
  ground_of = λ r p rejects. by_ip r p rejects (Bool-cases (cfg.is_ip4 ip));
}
  where
    lets_pass : {r : HookResult} → ok empty_result ≡ ok r → r.reject ≢ true
    lets_pass z w = cc

    code_of : {r : HookResult} {y : Bytes} → ok (rejection y) ≡ ok r → r.code ≡ 550
    code_of z = cc

    by_answer :
        (r : HookResult) (parts : List Bytes) (x : Result (List Bytes))
        → cfg.is_ip4 ip ≡ true
        → reversed cfg.dnsbl_server (split b'.' (cfg.show_ip ip)) ≡ ok parts
        → (query_a cfg.resolver (join_dots parts) tt).0 ≡ x
        → dnsbl_hook cfg false ip from ≡ ok r
        → r.reject ≡ true
        → (r.code ≡ 550) × (IsForbidden cfg ip from ⊎ IsListed cfg ip)
    by_answer r parts (err e) i n q p rejects = cc (rw (dnsbl_hook, i, n, q) at p)
    by_answer r parts (ok []) i n q p rejects =
        absurd (lets_pass (rw (dnsbl_hook, i, n, q) at p) rejects)
    by_answer r parts (ok (a ∷ more)) i n q p rejects = (
      code_of (rw (dnsbl_hook, i, n, q) at p),
      inr (record {
        enabled = on;
        ip4 = i;
        parts = parts;
        name = n;
        first = a;
        more = more;
        answer = q;
      }),
    )

    by_name :
        (r : HookResult) (x : Result (List Bytes))
        → cfg.is_ip4 ip ≡ true
        → reversed cfg.dnsbl_server (split b'.' (cfg.show_ip ip)) ≡ x
        → dnsbl_hook cfg false ip from ≡ ok r
        → r.reject ≡ true
        → (r.code ≡ 550) × (IsForbidden cfg ip from ⊎ IsListed cfg ip)
    by_name r (err e) i n p rejects = cc (rw (dnsbl_hook, i, n) at p)
    by_name r (ok parts) i n p rejects =
        by_answer r parts (query_a cfg.resolver (join_dots parts) tt).0 i n refl p rejects

    by_ip :
        (r : HookResult)
        → dnsbl_hook cfg false ip from ≡ ok r
        → r.reject ≡ true
        → (cfg.is_ip4 ip ≡ true) ⊎ (cfg.is_ip4 ip ≡ false)
        → (r.code ≡ 550) × (IsForbidden cfg ip from ⊎ IsListed cfg ip)
    by_ip r p rejects (inl i) =
        by_name r (reversed cfg.dnsbl_server (split b'.' (cfg.show_ip ip))) i refl p rejects
    by_ip r p rejects (inr i) = absurd (lets_pass (rw (dnsbl_hook, i) at p) rejects)

-- a verdict that rejects does so behind the headers of other hooks too
rest_rejects :
    (hs : List HeaderField) (v : Verdict) (r : Reply) → add_headers hs v ≡ reject r → v ≡ reject r
rest_rejects hs (accept ks) r p = cc
rest_rejects hs (reject x) r p = p
rest_rejects hs (fail e) r p = cc

run-Founded :
    (cfg : HookConfig) (ip : Bytes) (from : Address) (hooks : List FromHook) (reply : Reply)
    → All (Founded cfg ip from) hooks
    → run_from_hooks hooks false ip from ≡ reject reply
    → (reply.code ≡ 550) × (IsForbidden cfg ip from ⊎ IsListed cfg ip)
unfolding run_from_hooks
run-Founded cfg ip from [] reply h p = cc
run-Founded cfg ip from (hook ∷ hooks) reply h p =
    by_hook (hook false ip from) refl (run-Founded cfg ip from hooks reply h.1)
  where
    code_of :
        (r : HookResult)
        → reject (record { code = r.code; text = r.text }) ≡ reject reply
        → reply.code ≡ r.code
    code_of r z = cc

    by_hook :
        (x : Result HookResult)
        → hook false ip from ≡ x
        → (run_from_hooks hooks false ip from ≡ reject reply
            → (reply.code ≡ 550) × (IsForbidden cfg ip from ⊎ IsListed cfg ip))
        → (reply.code ≡ 550) × (IsForbidden cfg ip from ⊎ IsListed cfg ip)
    by_hook (err e) q later = cc (rw (run_from_hooks, q) at p)
    by_hook (ok r) q later = elim (Bool-cases r.reject) [
      | inl rejects ↦
          let (code, why) = h.0.ground_of r q rejects in
          (code_of r (rw (run_from_hooks, q, rejects) at p) ∙ code, why)
      | inr passes ↦ later (
          rest_rejects r.headers (run_from_hooks hooks false ip from) reply
            (rw (run_from_hooks, q, passes) at p))
    ]

All-add_if :
    (P : FromHook → Type 0) (enabled : Bool) (hook : FromHook) (hooks : List FromHook)
    → (enabled ≡ true → P hook)
    → All P hooks
    → All P (add_if enabled hook hooks)
All-add_if P true hook hooks f h = (f refl, h)
All-add_if P false hook hooks f h = h

All-if :
    (P : FromHook → Type 0) (b : Bool) (xs ys : List FromHook)
    → All P xs
    → All P ys
    → All P (if b then xs else ys)
All-if P true xs ys h k = h
All-if P false xs ys h k = k

from_hooks-Founded :
    (cfg : HookConfig) (ip : Bytes) (from : Address) → All (Founded cfg ip from) (from_hooks cfg)
unfolding from_hooks
from_hooks-Founded cfg ip from =
    let P = Founded cfg ip from in
    let spf = spf-Founded cfg ip from in
    let list = dnsbl-Founded cfg ip from in
    All-if P cfg.spf_first _ _
      (All-add_if P cfg.spf_enabled (spf_hook cfg) _ spf
        (All-add_if P cfg.dnsbl_enabled (dnsbl_hook cfg) [] list tt))
      (All-add_if P cfg.dnsbl_enabled (dnsbl_hook cfg) _ list
        (All-add_if P cfg.spf_enabled (spf_hook cfg) [] spf tt))

-- When the hooks reject a sender, in either order, it is one that does not submit mail, with code
-- 550, and with a reason: SPF is enabled and fails, or the list is enabled, the address is of
-- version 4, and the name that the list has for it has a record.
pub run_from_hooks-rejects :
    (cfg : HookConfig) (submission : Bool) (ip : Bytes) (from : Address) (reply : Reply)
    → run_from_hooks (from_hooks cfg) submission ip from ≡ reject reply
    → (submission ≡ false) × (reply.code ≡ 550) × (IsForbidden cfg ip from ⊎ IsListed cfg ip)
run_from_hooks-rejects cfg false ip from reply p =
    let (code, reason) =
      run-Founded cfg ip from (from_hooks cfg) reply (from_hooks-Founded cfg ip from) p in
    (refl, code, reason)
run_from_hooks-rejects cfg true ip from reply p =
    absurd (accepted (sym (run_from_hooks-submission cfg ip from) ∙ p))
  where
    accepted : accept [] ≢ reject reply
    accepted q = cc
