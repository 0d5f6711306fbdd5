-- ===== src/Shell/Rows.antt =====
-- The rows of the table "mailboxes" by name.
use briefmail.Base.{
  ℕ, ◌≡◌, refl, sym, subst, inl, inr, Bool, true, false, Bool-cases, Option, none, some, List, [],
  ◌∷◌, ◌++◌, Bytes, any, equal, equal_iff,
}
use briefmail.Storage.Db.{Bcrypt}
use briefmail.Storage.Tables.{MailboxRow, rows, first_row, update_hash}

-- the row of a name, as the queries find it
abbrev pub row_of : Bytes → List MailboxRow → Option MailboxRow
row_of name ms = first_row (rows (λ (r : MailboxRow). equal r.name name) ms)

-- what Authenticate makes of it
abbrev pub checks : Bcrypt → Bytes → Option MailboxRow → ℕ × Bool
checks bcrypt pass none = (0, false)
checks bcrypt pass (some r) = (r.id, bcrypt.matches r.hash pass)

pub row_of-append :
    (name : Bytes) (ms : List MailboxRow) (r : MailboxRow)
    → any (λ (x : MailboxRow). equal x.name name) ms ≡ false
    → row_of name (ms ++ (r ∷ [])) ≡ row_of name (r ∷ [])
unfolding rows
row_of-append name [] r p = refl
row_of-append name (m ∷ ms) r p = elim (Bool-cases (equal m.name name)) [
  | inl is ↦ cc (rw is at p)
  | inr is_not ↦ rw is_not (row_of-append name ms r (rw is_not at p))
]

pub row_of-append_other :
    (name : Bytes) (ms : List MailboxRow) (r : MailboxRow)
    → equal r.name name ≡ false
    → row_of name (ms ++ (r ∷ [])) ≡ row_of name ms
unfolding rows
row_of-append_other name [] r p = rw p refl
row_of-append_other name (m ∷ ms) r p = elim (Bool-cases (equal m.name name)) [
  | inl is ↦ rw is refl
  | inr is_not ↦ rw is_not (row_of-append_other name ms r p)
]

-- the row with another hash
abbrev pub rehashed : Bytes → Option MailboxRow → Option MailboxRow
rehashed hash none = none
rehashed hash (some r) = some (record r { hash = hash })

pub row_of-update :
    (name hash : Bytes) (ms : List MailboxRow)
    → row_of name (update_hash name hash ms).0 ≡ rehashed hash (row_of name ms)
unfolding rows update_hash
row_of-update name hash [] = refl
row_of-update name hash (m ∷ ms) = elim (Bool-cases (equal m.name name)) [
  | inl is ↦ rw (is, is) refl
  | inr is_not ↦ rw (is_not, is_not) (row_of-update name hash ms)
]

pub row_of-update_other :
    (name other hash : Bytes) (ms : List MailboxRow)
    → equal name other ≡ false
    → row_of other (update_hash name hash ms).0 ≡ row_of other ms
unfolding rows update_hash
row_of-update_other name other hash [] p = refl
row_of-update_other name other hash (m ∷ ms) p = elim (Bool-cases (equal m.name name)) [
  | inl is ↦ rw (is, apart m.name is) (row_of-update_other name other hash ms p)
  | inr is_not ↦ rw is_not (elim (Bool-cases (equal m.name other)) [
    | inl found ↦ rw found refl
    | inr else_where ↦ rw else_where (row_of-update_other name other hash ms p)
  ])
]
  where
    apart : (x : Bytes) → equal x name ≡ true → equal x other ≡ false
    apart x q = subst (λ y. equal y other ≡ false) (sym ((equal_iff x name).0 q)) p
