-- ===== src/Delivery/Queue/Groups.antt =====
-- The recipients by their domain: addressesByDomain of internal/delivery/queue.go.
use mathlib.Core.List.{Perm, perm_middle}
use mathlib.Core.List.Perm
use briefmail.Base.{
  ◌≡◌, ◌≢◌, refl, sym, subst, Bool, true, false, Bool-cases, inl, inr, List, [], ◌∷◌, ◌++◌,
  append_assoc, append-nil, Bytes, equal, equal_iff, All, All-append,
}
use briefmail.Delivery.Queue.{Groups, add_address, add_each, addresses_by_domain}
use briefmail.Model.Address.{Address}

-- the addresses of all groups
unfoldable pub members : Groups → List Address
members [] = []
members (g ∷ gs) = g.1 ++ members gs

add_address-members :
    (a : Address) (gs : Groups) → Perm (members (add_address a gs)) (a ∷ members gs)
unfolding add_address members
add_address-members a [] = Perm.refl _
add_address-members a ((domain, as') ∷ rest) = elim (Bool-cases (equal domain a.domain)) [
  | inl is ↦ rw (is, append_assoc as' (a ∷ []) (members rest)) (perm_middle as' (members rest))
  | inr is_not ↦ rw is_not (
      Perm.trans (Perm.append_left as' (add_address-members a rest))
        (perm_middle as' (members rest)))
]

add_each-members :
    (as' : List Address) (gs : Groups) → Perm (members (add_each as' gs)) (as' ++ members gs)
unfolding add_each
add_each-members [] gs = Perm.refl _
add_each-members (a ∷ as') gs =
    Perm.trans (add_each-members as' (add_address a gs))
      (Perm.trans (Perm.append_left as' (add_address-members a gs)) (perm_middle as' (members gs)))

-- A group is of one domain, and not empty.
pub record IsGroup (g : Bytes × List Address) : Type 0 where
  pub of_domain : All (λ (a : Address). a.domain ≡ g.0) g.1
  pub some_member : g.1 ≢ []

-- no domain has two groups
abbrev pub Apart : Groups → Type 0
Apart [] = Unit
Apart (g ∷ gs) = All (λ (k : Bytes × List Address). k.0 ≢ g.0) gs × Apart gs

snoc-not_empty : {A : Type 0} (xs : List A) (x : A) → xs ++ (x ∷ []) ≢ []
snoc-not_empty [] x p = cc
snoc-not_empty (y ∷ ys) x p = cc

add_address-IsGroup : (a : Address) (gs : Groups) → All IsGroup gs → All IsGroup (add_address a gs)
unfolding add_address
add_address-IsGroup a [] h = (record { of_domain = (refl, tt); some_member = λ p. cc }, tt)
add_address-IsGroup a ((domain, as') ∷ rest) h = elim (Bool-cases (equal domain a.domain)) [
  | inl is ↦ rw is (
    record {
      of_domain =
          All-append (λ (b : Address). b.domain ≡ domain) as' (a ∷ []) h.0.of_domain
            (sym ((equal_iff domain a.domain).0 is), tt);
      some_member = snoc-not_empty as' a;
    },
    h.1,
  )
  | inr is_not ↦ rw is_not (h.0, add_address-IsGroup a rest h.1)
]

-- a group that is added is of the address's domain
add_address-Apart_from :
    (a : Address) (domain : Bytes) (gs : Groups)
    → a.domain ≢ domain
    → All (λ (k : Bytes × List Address). k.0 ≢ domain) gs
    → All (λ (k : Bytes × List Address). k.0 ≢ domain) (add_address a gs)
unfolding add_address
add_address-Apart_from a domain [] ne h = (ne, tt)
add_address-Apart_from a domain ((d, as') ∷ rest) ne h = elim (Bool-cases (equal d a.domain)) [
  | inl is ↦ rw is h
  | inr is_not ↦ rw is_not (h.0, add_address-Apart_from a domain rest ne h.1)
]

not_equal : (s t : Bytes) → equal s t ≡ false → t ≢ s
not_equal s t p q = clash ((equal_iff s t).1 (sym q)) p
  where
    clash : {b : Bool} → b ≡ true → b ≡ false → ⊥
    clash u v = cc

add_address-Apart : (a : Address) (gs : Groups) → Apart gs → Apart (add_address a gs)
unfolding add_address
add_address-Apart a [] h = (tt, tt)
add_address-Apart a ((domain, as') ∷ rest) h = elim (Bool-cases (equal domain a.domain)) [
  | inl is ↦ rw is h
  | inr is_not ↦ rw is_not (
    add_address-Apart_from a domain rest (not_equal domain a.domain is_not) h.0,
    add_address-Apart a rest h.1,
  )
]

add_each-IsGroup :
    (as' : List Address) (gs : Groups) → All IsGroup gs → All IsGroup (add_each as' gs)
unfolding add_each
add_each-IsGroup [] gs h = h
add_each-IsGroup (a ∷ as') gs h =
    add_each-IsGroup as' (add_address a gs) (add_address-IsGroup a gs h)

add_each-Apart : (as' : List Address) (gs : Groups) → Apart gs → Apart (add_each as' gs)
unfolding add_each
add_each-Apart [] gs h = h
add_each-Apart (a ∷ as') gs h = add_each-Apart as' (add_address a gs) (add_address-Apart a gs h)

-- The groups partition the addresses by their domain.
pub record IsGrouped (as' : List Address) (gs : Groups) : Type 0 where
  pub same : Perm (members gs) as'
  pub groups : All IsGroup gs
  pub apart : Apart gs

-- addressesByDomain puts every address in the group of its domain, as often as it is given; no
-- group is empty, and no domain has two groups.
pub addresses_by_domain-IsGrouped : (as' : List Address) → IsGrouped as' (addresses_by_domain as')
unfolding addresses_by_domain members
addresses_by_domain-IsGrouped as' = record {
  same = subst (λ l. Perm (members (add_each as' [])) l) (append-nil as') (add_each-members as' []);
  groups = add_each-IsGroup as' [] tt;
  apart = add_each-Apart as' [] tt;
}
