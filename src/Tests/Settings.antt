-- ===== src/Tests/Settings.antt =====
-- The theorems on the commands of the shell, the certificates and the hooks at concrete inputs.
use briefmail.Base.{
  ℕ, ◌≡◌, refl, true, false, [], ◌∷◌, Bytes, codes, equal, equal_refl, length, subst, ◌⊎◌,
}
use briefmail.Outcome.{other, ok, err}
use briefmail.Certs.{Entry, Acme, Os}
use briefmail.Dns.{query_a, a_rr}
use briefmail.Hooks.{
  dnsbl_hook, empty_result, rejection, HookConfig, spf_fail, join_dots, from_hooks,
}
use briefmail.Hooks.Rejection.{IsForbidden, IsListed, run_from_hooks-rejects}
use briefmail.Hooks.Reversed.{dnsbl_hook-queries}
use briefmail.Shell.{add_mailbox_cmd, change_mailbox_password}
use briefmail.Shell.Calls.{working}
use briefmail.Shell.Accounts.{
  IsBcrypt, add_mailbox_cmd-authenticate, change_mailbox_password-authenticate, commands-others,
}
use briefmail.Smtp.Handlers.{run_from_hooks}
use briefmail.Smtp.Session.{Reply}
use briefmail.Storage.Db
use briefmail.Storage.Db.{Bcrypt, authenticate, add_mailbox, set_password}
use briefmail.Storage.Tables.{Tables}
use briefmail.Tests.{bob, tables}

abbrev stored_as_is : Bcrypt
stored_as_is = record { generate = ok; matches = λ hash secret. equal hash secret }

stored_as_is-IsBcrypt : IsBcrypt stored_as_is
stored_as_is-IsBcrypt = record { accepts = λ secret hash p. accepted secret hash p }
  where
    accepted : (secret hash : Bytes) → ok secret ≡ ok hash → equal hash secret ≡ true
    accepted secret hash p = subst (λ h. equal h secret ≡ true) (same p) (equal_refl secret)
      where
        same : ok secret ≡ ok hash → secret ≡ hash
        same q = cc

add_mailbox_cmd-authenticate_example :
    (authenticate stored_as_is
      (codes "ann")
      (codes "pw")
      (add_mailbox_cmd stored_as_is (codes "ann" ∷ []) (ok (codes "pw")) (working tables)).1).0
    ≡ ok (2, true)
unfolding add_mailbox_cmd
add_mailbox_cmd-authenticate_example =
    add_mailbox_cmd-authenticate stored_as_is (codes "ann") (codes "pw") tables 2
      stored_as_is-IsBcrypt refl

abbrev tables_with_ann : Tables
tables_with_ann = record tables {
  mailboxes = record { id = 1; name = codes "ann"; hash = codes "pw" } ∷ [];
}

change_mailbox_password-authenticate_example :
    (id : ℕ) × ((Db.mailbox (codes "ann") (working tables_with_ann)).0 ≡ ok id)
    × ((authenticate stored_as_is
          (codes "ann")
          (codes "new")
          (change_mailbox_password stored_as_is
            (codes "ann" ∷ [])
            (ok (codes "new"))
            (working tables_with_ann)).1).0
        ≡ ok (id, true))
unfolding change_mailbox_password equal
change_mailbox_password-authenticate_example =
    change_mailbox_password-authenticate stored_as_is (codes "ann") (codes "new") tables_with_ann
      stored_as_is-IsBcrypt refl

commands-others_example :
    ((authenticate stored_as_is
        (codes "ann")
        (codes "pw")
        (add_mailbox_cmd stored_as_is
          (codes "bob" ∷ [])
          (ok (codes "x"))
          (working tables_with_ann)).1).0
      ≡ (authenticate stored_as_is (codes "ann") (codes "pw") (working tables_with_ann)).0)
    × ((authenticate stored_as_is
          (codes "ann")
          (codes "pw")
          (change_mailbox_password stored_as_is
            (codes "bob" ∷ [])
            (ok (codes "x"))
            (working tables_with_ann)).1).0
        ≡ (authenticate stored_as_is (codes "ann") (codes "pw") (working tables_with_ann)).0)
unfolding equal
commands-others_example =
    commands-others stored_as_is (codes "bob" ∷ []) (ok (codes "x")) (codes "ann") (codes "pw")
      tables_with_ann (refl, tt)

abbrev acme_entry : Bytes → Bytes → Entry
acme_entry domain crt = record { main = domain; crt = crt; key = codes "k" }

abbrev acme_file : Acme
acme_file = record {
  entries = acme_entry (codes "c.d") (codes "1") ∷ [];
  letsencrypt = acme_entry (codes "a.b") (codes "2") ∷ acme_entry (codes "a.b") (codes "3") ∷ [];
}

-- a file's time is the length of its name, and a certificate is a number
abbrev pub machine : Os (Unit {0}) ℕ
machine = record {
  stat = λ file w. (ok (length file), w);
  load_key_pair = λ crt key w. (ok 5, w);
  read_acme = λ file w. (ok acme_file, w);
  decode_base64 = ok;
  key_pair = λ crt key. ok (length crt);
  no_certificate = other 1;
}

-- a list that has every name
abbrev hook_config : HookConfig
hook_config = record {
  spf_enabled = false;
  dnsbl_enabled = true;
  dnsbl_server = codes "l";
  is_ip4 = λ ip. true;
  show_ip = λ ip. codes "1.2.3.4";
  check_host = λ ip domain sender. spf_fail;
  resolver = record { fqdn = λ name. name; exchange = λ name t w. (ok (a_rr [] ∷ []), w) };
  spf_first = true;
}

abbrev in_the_news : Reply
in_the_news = record { code = 550; text = codes "I heard of you in the news!" }

run_from_hooks-rejects_example :
    (false ≡ false)
    × (in_the_news.code ≡ 550)
    × (IsForbidden hook_config [] bob ⊎ IsListed hook_config [])
unfolding run_from_hooks from_hooks
run_from_hooks-rejects_example = run_from_hooks-rejects hook_config false [] bob in_the_news refl

dnsbl_hook-queries_example :
    dnsbl_hook hook_config false [] bob
    ≡ (elim (query_a hook_config.resolver
        (join_dots (codes "4" ∷ codes "3" ∷ codes "2" ∷ codes "1" ∷ hook_config.dnsbl_server ∷ []))
        tt).0 [
          | err e ↦ err e
          | ok [] ↦ ok empty_result
          | ok (_ ∷ _) ↦ ok (rejection (codes "I heard of you in the news!"))
        ])
unfolding join_dots
dnsbl_hook-queries_example =
    dnsbl_hook-queries hook_config [] (codes "1") (codes "2") (codes "3") (codes "4") bob refl refl
      refl refl refl refl
