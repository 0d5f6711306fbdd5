-- ===== src/Hooks/Submission.antt =====
-- The hooks of internal/smtp/hook on a client that submits mail.
use briefmail.Base.{◌≡◌, refl, Bool, true, false, List, [], Bytes, if◌then◌else◌}
use briefmail.Outcome.{ok}
use briefmail.Hooks.{HookConfig, FromHook, empty_result, spf_hook, dnsbl_hook, add_if, from_hooks}
use briefmail.Model.Address.{Address}
use briefmail.Smtp.Handlers.{accept, run_from_hooks}

-- A client that submits mail is let through by all the hooks, without a header, whatever is
-- configured and whatever SPF and the DNS say.
pub run_from_hooks-submission :
    (cfg : HookConfig) (ip : Bytes) (from : Address)
    → run_from_hooks (from_hooks cfg) true ip from ≡ accept []
unfolding run_from_hooks from_hooks spf_hook dnsbl_hook
run_from_hooks-submission cfg ip from =
    either _ _ cfg.spf_first
      (skipped cfg.spf_enabled (spf_hook cfg) _ refl
        (skipped cfg.dnsbl_enabled (dnsbl_hook cfg) [] refl refl))
      (skipped cfg.dnsbl_enabled (dnsbl_hook cfg) _ refl
        (skipped cfg.spf_enabled (spf_hook cfg) [] refl refl))
  where
    skipped :
        (enabled : Bool) (hook : FromHook) (hooks : List FromHook)
        → hook true ip from ≡ ok empty_result
        → run_from_hooks hooks true ip from ≡ accept []
        → run_from_hooks (add_if enabled hook hooks) true ip from ≡ accept []
    skipped true hook hooks h k = rw (run_from_hooks, h, k) refl
    skipped false hook hooks h k = k

    either :
        (xs ys : List FromHook) (b : Bool)
        → run_from_hooks xs true ip from ≡ accept []
        → run_from_hooks ys true ip from ≡ accept []
        → run_from_hooks (if b then xs else ys) true ip from ≡ accept []
    either xs ys true h k = h
    either xs ys false h k = k
