-- ===== src/Addressbook/Lookup.antt =====
-- What a lookup returns, and what holds of each address book that Parse returns.
use briefmail.Base.{
  ℕ, ◌≡◌, refl, subst, ◌∙◌, equal_iff, ◌&&◌, Bool-cases, Option-cases, inl, inr, true, false,
  Option, none, some, List, [], ◌∷◌, Bytes, equal, if◌then◌else◌, arith,
}
use briefmail.Outcome.{Result, ok}
use briefmail.Outcome.Fallible.{◌>>=◌, bind-eq-ok}
use briefmail.Model.Address.{Address, Normalizer, parse_address, contains, new_set}
use briefmail.Addressbook.{
  local, remote, Entry, Addressbook, star, or_else, lookup, lookup_in_domain, add_entry,
  add_addresses, or_unknown, add_mailboxes, parse,
}

-- The entry for a user and a domain, with neither of them a wildcard for the other.
abbrev pub cell : Addressbook → Bytes → Bytes → Option Entry
cell b user domain = elim (b.entries domain) [ none ↦ none | some users ↦ users user ]

-- In a domain of the server the most specific entry is taken: user@domain, *@domain, user@*, *@*.
-- An address of another domain is remote.
pub lookup-most_specific :
    (b : Addressbook) (a : Address)
    → lookup b a ≡ (
        if contains b.domains a.domain
        then or_else
            (cell b a.user a.domain)
            (or_else (cell b star a.domain) (or_else (cell b a.user star) (cell b star star)))
        else some (record { kind = remote; mailbox = none; address = some a }))
unfolding lookup lookup_in_domain
lookup-most_specific b a = ground arith

-- An entry of the file: a local mailbox.
pub record IsLocal (e : Entry) : Type 0 where
  pub id : ℕ
  pub kind_is : e.kind ≡ local
  pub mailbox_is : e.mailbox ≡ some id

pub record OnlyLocal (b : Addressbook) : Type 0 where
  pub at : (user domain : Bytes) (e : Entry) → cell b user domain ≡ some e → IsLocal e

cell-add_entry :
    (m : ℕ) (a : Address) (b : Addressbook) (user domain : Bytes)
    → cell (add_entry m a b) user domain ≡ (
        if equal a.domain domain && equal a.user user
        then some (record { kind = local; mailbox = some m; address = none })
        else cell b user domain)
unfolding add_entry
cell-add_entry m a b user domain = ground (arith, equal_iff a.domain domain)

add_entry-OnlyLocal :
    (m : ℕ) (a : Address) (b : Addressbook) → OnlyLocal b → OnlyLocal (add_entry m a b)
add_entry-OnlyLocal m a b h = record {
  at = λ user domain e p. elim (Bool-cases (equal a.domain domain && equal a.user user)) [
    | inl new ↦
        let q : some (record { kind = local; mailbox = some m; address = none }) ≡ some e =
          rw new at (rw cell-add_entry at p) in
        record { id = m; kind_is = ground arith; mailbox_is = ground arith }
    | inr old ↦ h.at user domain e (rw old at (rw cell-add_entry at p))
  ];
}

add_addresses-OnlyLocal :
    (n : Normalizer) (m : ℕ) (l : List Bytes) (b b' : Addressbook)
    → OnlyLocal b
    → add_addresses n m l b ≡ ok b'
    → OnlyLocal b' × (b'.domains ≡ b.domains)
unfolding add_addresses
add_addresses-OnlyLocal n m [] b b' h p = (subst OnlyLocal (cc p) h, cc p)
add_addresses-OnlyLocal n m (x ∷ l) b b' h p =
    let (a, q, r) = bind-eq-ok (parse_address n x) (λ a. add_addresses n m l (add_entry m a b)) p in
    let (o, d) =
      add_addresses-OnlyLocal n m l (add_entry m a b) b' (add_entry-OnlyLocal m a b h) r in
    (o, d ∙ unfold add_entry in refl)

add_mailboxes-OnlyLocal :
    (n : Normalizer) (ids : Bytes → Result ℕ) (l : List (Bytes × List Bytes)) (b b' : Addressbook)
    → OnlyLocal b
    → add_mailboxes n ids l b ≡ ok b'
    → OnlyLocal b' × (b'.domains ≡ b.domains)
unfolding add_mailboxes
add_mailboxes-OnlyLocal n ids [] b b' h p = (subst OnlyLocal (cc p) h, cc p)
add_mailboxes-OnlyLocal n ids ((name, l) ∷ ls) b b' h p =
    let (m, q, r) =
      bind-eq-ok (or_unknown (ids name)) (λ m. add_addresses n m l b >>= add_mailboxes n ids ls)
        p in
    let (c, q', r') = bind-eq-ok (add_addresses n m l b) (add_mailboxes n ids ls) r in
    let (o, d) = add_addresses-OnlyLocal n m l b c h q' in
    let (o', d') = add_mailboxes-OnlyLocal n ids ls c b' o r' in (o', d' ∙ d)

parse-OnlyLocal :
    (n : Normalizer) (ids : Bytes → Result ℕ) (configured : List Bytes)
    (file : Result (List (Bytes × List Bytes))) (b : Addressbook)
    → parse n ids configured file ≡ ok b
    → OnlyLocal b
unfolding parse
parse-OnlyLocal n ids configured file b p =
    let (d, q, r) =
      bind-eq-ok (new_set configured n.domain)
        (λ d. file >>= λ l. add_mailboxes n ids l (record { domains = d; entries = λ x. none }))
        p in
    let (l, q', r') =
      bind-eq-ok file (λ l. add_mailboxes n ids l (record { domains = d; entries = λ x. none }))
        r in
    (add_mailboxes-OnlyLocal n ids l (record { domains = d; entries = λ x. none }) b
      (record { at = λ user domain e h. cc }) r').0

-- user@domain, *@domain, user@*, *@*
abbrev pub most_specific : Addressbook → Address → Option Entry
most_specific b a =
    or_else (cell b a.user a.domain)
      (or_else (cell b star a.domain) (or_else (cell b a.user star) (cell b star star)))

-- What the result of a lookup is.
pub data IsAnswer (b : Addressbook) (a : Address) (o : Option Entry) : Type 0 where
  is_unknown :
      contains b.domains a.domain ≡ true → most_specific b a ≡ none → o ≡ none → IsAnswer b a o
  is_local :
      (e : Entry)
      → contains b.domains a.domain ≡ true
      → most_specific b a ≡ some e
      → o ≡ some e
      → IsLocal e
      → IsAnswer b a o
  is_remote :
      contains b.domains a.domain ≡ false
      → o ≡ some (record { kind = remote; mailbox = none; address = some a })
      → IsAnswer b a o

cells-IsLocal :
    (b : Addressbook) (a : Address) (e : Entry)
    → OnlyLocal b
    → or_else
        (cell b a.user a.domain)
        (or_else (cell b star a.domain) (or_else (cell b a.user star) (cell b star star)))
      ≡ some e
    → IsLocal e
cells-IsLocal b a e h p =
    ground
      (arith, h.at a.user a.domain e, h.at star a.domain e, h.at a.user star e, h.at star star e)

OnlyLocal-lookup : (b : Addressbook) (a : Address) → OnlyLocal b → IsAnswer b a (lookup b a)
OnlyLocal-lookup b a h = elim (Bool-cases (contains b.domains a.domain)) [
  | inl ours ↦ elim (Option-cases (most_specific b a)) [
    | inl nothing ↦ is_unknown ours nothing (rw (lookup-most_specific, ours) nothing)
    | inr (e, found) ↦
        is_local e ours found (rw (lookup-most_specific, ours) found) (cells-IsLocal b a e h found)
  ]
  | inr theirs ↦ is_remote theirs (rw (lookup-most_specific, theirs) refl)
]

-- In an address book from Parse, for an address of a domain of the server, a lookup finds the most
-- specific of the entries user@domain, *@domain, user@* and *@*, which is a local mailbox, and
-- nothing only where there is none of the four; for any other address it finds the address itself,
-- as remote.
pub parse-lookup :
    (n : Normalizer) (ids : Bytes → Result ℕ) (configured : List Bytes)
    (file : Result (List (Bytes × List Bytes))) (b : Addressbook) (a : Address)
    → parse n ids configured file ≡ ok b
    → IsAnswer b a (lookup b a)
parse-lookup n ids configured file b a p =
    OnlyLocal-lookup b a (parse-OnlyLocal n ids configured file b p)
