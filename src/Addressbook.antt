-- ===== src/Addressbook.antt =====
-- internal/addressbook. A Go map is the function that looks a key up in it.
pub mod Lookup
use briefmail.Base.{
  ℕ, Bool, ◌≡◌, refl, Option, none, some, List, [], ◌∷◌, Bytes, codes, equal, if◌then◌else◌,
}
use briefmail.Outcome.{Result, ok, err, Error, unknown_mailbox}
use briefmail.Outcome.Fallible.{◌>>=◌}
use briefmail.Model.Address.{Address, Normalizer, parse_address, DomainSet, new_set, contains}

pub data EntryKind : Type 0 where
  local forward remote : EntryKind

pub record Entry : Type 0 where
  pub kind : EntryKind
  pub mailbox : Option ℕ
  pub address : Option Address

-- map[string]*Entry, by user
abbrev pub Users : Type 0
Users = Bytes → Option Entry

pub record Addressbook : Type 0 where
  pub domains : DomainSet
  -- map[string]map[string]*Entry, by domain
  pub entries : Bytes → Option Users

abbrev pub star : Bytes
star = codes "*"

abbrev pub or_else {ℓ} : {A : Type ℓ} → Option A → Option A → Option A
or_else (some a) o = some a
or_else none o = o

-- lookupInDomain
unfoldable pub lookup_in_domain : Option Users → Address → Option Entry
lookup_in_domain none addr = none
lookup_in_domain (some domain) addr = or_else (domain addr.user) (domain star)

-- (*addressbook).Lookup
unfoldable pub lookup : Addressbook → Address → Option Entry
unfolding contains lookup_in_domain
lookup b addr =
    if contains b.domains addr.domain
    then or_else (lookup_in_domain (b.entries addr.domain) addr)
        (lookup_in_domain (b.entries star) addr)
    else some (record { kind = remote; mailbox = none; address = some addr })

-- `m[k] = v`
abbrev pub assign {ℓ} : {V : Type ℓ} → (Bytes → Option V) → Bytes → V → Bytes → Option V
assign m k v j = if equal k j then some v else m j

-- the map of a domain, made if there is none
abbrev users_or_new : Option Users → Users
users_or_new (some users) = users
users_or_new none = λ u. none

-- `addressbook.entries[addr.Domain][addr.User] = &Entry{Kind: Local, Mailbox: &mailbox}`
add_entry : ℕ → Address → Addressbook → Addressbook
add_entry mailbox addr b = record b {
  entries = assign b.entries addr.domain (
      assign (users_or_new (b.entries addr.domain)) addr.user
        (record { kind = local; mailbox = some mailbox; address = none }));
}

-- the loop over the addresses of one mailbox
add_addresses : Normalizer → ℕ → List Bytes → Addressbook → Result Addressbook
unfolding add_entry
add_addresses n mailbox [] b = ok b
add_addresses n mailbox (address ∷ rest) b = do
  addr ← parse_address n address
  add_addresses n mailbox rest (add_entry mailbox addr b)

abbrev or_unknown : Result ℕ → Result ℕ
or_unknown (ok id) = ok id
or_unknown (err _) = err unknown_mailbox

-- the loop over `data.Mailboxes`, in the order in which the map gives them
add_mailboxes :
    Normalizer → (Bytes → Result ℕ) → List (Bytes × List Bytes) → Addressbook → Result Addressbook
unfolding add_addresses
add_mailboxes n mailbox_of [] b = ok b
add_mailboxes n mailbox_of ((name, addresses) ∷ rest) b = do
  mailbox ← or_unknown (mailbox_of name)
  b' ← add_addresses n mailbox addresses b
  add_mailboxes n mailbox_of rest b'

-- Parse, on the configured domains, the decoded file, and (*DB).Mailbox
unfoldable pub parse :
    Normalizer
    → (Bytes → Result ℕ)
    → List Bytes
    → Result (List (Bytes × List Bytes))
    → Result Addressbook
unfolding add_mailboxes new_set
parse n mailbox_of configured file = do
  domains ← new_set configured n.domain
  mailboxes ← file
  add_mailboxes n mailbox_of mailboxes (record { domains = domains; entries = λ d. none })
