-- ===== src/Hooks/Reversed.antt =====
-- The name that internal/smtp/hook/dnsbl.go looks up.
use briefmail.Base.{◌≡◌, refl, true, false, codes, [], ◌∷◌, ◌++◌, Bytes, ◌==◌, any}
use briefmail.Dns.{query_a}
use briefmail.Model.Address.{Address}
use briefmail.Outcome.{ok, err}
use briefmail.Hooks.{
  HookConfig, dnsbl_hook, empty_result, rejection, join_dots, reversed, pad, reverse_onto,
}
use briefmail.Text.{split}
use briefmail.Text.Split.{split-part, split-last}

reversed-split :
    (server a b c d : Bytes)
    → any (λ x. x == b'.') a ≡ false
    → any (λ x. x == b'.') b ≡ false
    → any (λ x. x == b'.') c ≡ false
    → any (λ x. x == b'.') d ≡ false
    → reversed server (split b'.' (join_dots (a ∷ b ∷ c ∷ d ∷ [])))
      ≡ ok (d ∷ c ∷ b ∷ a ∷ server ∷ [])
unfolding reversed join_dots pad reverse_onto
reversed-split server a b c d pa pb pc pd =
    rw
      (
        split-part b'.' a (b ++ (b'.' ∷ c ++ (b'.' ∷ d))) pa,
        split-part b'.' b (c ++ (b'.' ∷ d)) pb,
        split-part b'.' c d pc,
        split-last b'.' d pd,
      )
      refl

-- For a client at an address a.b.c.d of version 4, which does not submit mail, the hook queries the
-- name d.c.b.a under the name of the list, and only that: a record rejects the sender, none lets it
-- pass, and an error of the query is the error of the hook.
pub dnsbl_hook-queries :
    (cfg : HookConfig) (ip a b c d : Bytes) (from : Address)
    → cfg.is_ip4 ip ≡ true
    → cfg.show_ip ip ≡ join_dots (a ∷ b ∷ c ∷ d ∷ [])
    → any (λ x. x == b'.') a ≡ false
    → any (λ x. x == b'.') b ≡ false
    → any (λ x. x == b'.') c ≡ false
    → any (λ x. x == b'.') d ≡ false
    → dnsbl_hook cfg false ip from
      ≡ (elim (query_a cfg.resolver (join_dots (d ∷ c ∷ b ∷ a ∷ cfg.dnsbl_server ∷ [])) tt).0 [
        | err e ↦ err e
        | ok [] ↦ ok empty_result
        | ok (_ ∷ _) ↦ ok (rejection (codes "I heard of you in the news!"))
      ])
unfolding dnsbl_hook
dnsbl_hook-queries cfg ip a b c d from four shown pa pb pc pd =
    rw (four, shown, reversed-split cfg.dnsbl_server a b c d pa pb pc pd) refl
