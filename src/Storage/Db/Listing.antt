-- ===== src/Storage/Db/Listing.antt =====
-- Which mails (*DB).Entries of internal/storage/db.go lists.
use briefmail.Base.{
  ℕ, zero, suc, ◌≤◌, ◌<◌, ◌≡◌, refl, ap, ◌∙◌, inl, inr, Bool, Bool-cases, true, ◌&&◌, ◌||◌, some,
  List, [], ◌∷◌, ◌++◌, any, ◌==◌, take, length, length-take, get_elem?, arith,
}
use briefmail.Outcome.{ok}
use briefmail.Storage.Db.{Entry, entries, as_entries, total_size, transact, run_tx, finish_tx}
use briefmail.Storage.Tables.{
  MailRow, EntryRow, Tables, rows, insert_by_date, newest_first, select_entries,
}

-- the mails that have an entry in the mailbox
abbrev pub in_mailbox : ℕ → Tables → MailRow → Bool
in_mailbox box t m = any (λ (e : EntryRow). e.mailbox == box && e.mail == m.uuid) t.entries

abbrev pub box_mails : ℕ → Tables → List MailRow
box_mails box t = rows (in_mailbox box t) t.mails

module _ {A : Type 0} where
  take_all : (n : ℕ) (xs : List A) → length xs ≤ n → take n xs ≡ xs
  take_all zero [] h = refl
  take_all zero (x ∷ xs) h = absurd (omega arith)
  take_all (suc n) [] h = refl
  take_all (suc n) (x ∷ xs) h = ap (λ l. x ∷ l) (take_all n xs (omega arith))

  pub any-append : (f : A → Bool) (xs ys : List A) → any f (xs ++ ys) ≡ (any f xs || any f ys)
  any-append f [] ys = refl
  any-append f (x ∷ xs) ys = ground (arith, any-append f xs ys)

  -- the last row is among those for which a test holds
  any-rows :
      (f p : A → Bool) (xs : List A) (x : A)
      → p x ≡ true
      → f x ≡ true
      → any f (rows p (xs ++ (x ∷ []))) ≡ true
  unfolding rows
  any-rows f p [] x h k = rw (h, k) refl
  any-rows f p (y ∷ ys) x h k = ground (arith, any-rows f p ys x h k)

  -- an element that satisfies a test has a place
  pub get_elem?-any :
      (f : A → Bool) (xs : List A)
      → any f xs ≡ true
      → (n : ℕ) × (x : A) × (get_elem? xs n ≡ some x) × (f x ≡ true)
  get_elem?-any f [] h = cc
  get_elem?-any f (x ∷ xs) h = elim (Bool-cases (f x)) [
    | inl here ↦ (0, x, refl, here)
    | inr beyond ↦
        let (n, y, at, holds) = get_elem?-any f xs (rw beyond at h) in (suc n, y, at, holds)
  ]

  pub get_elem?-lt : (xs : List A) (n : ℕ) (x : A) → get_elem? xs n ≡ some x → n < length xs
  get_elem?-lt [] n x h = cc
  get_elem?-lt (y ∷ ys) zero x h = omega arith
  get_elem?-lt (y ∷ ys) (suc n) x h = omega (arith, get_elem?-lt ys n x h)

any-insert_by_date :
    (f : MailRow → Bool) (m : MailRow) (xs : List MailRow)
    → any f (insert_by_date m xs) ≡ any f (m ∷ xs)
unfolding insert_by_date
any-insert_by_date f m [] = refl
any-insert_by_date f m (x ∷ xs) = ground (arith, any-insert_by_date f m xs)

any-newest_first : (f : MailRow → Bool) (xs : List MailRow) → any f (newest_first xs) ≡ any f xs
unfolding newest_first
any-newest_first f [] = refl
any-newest_first f (x ∷ xs) =
    any-insert_by_date f x (newest_first xs) ∙ ap (λ b. f x || b) (any-newest_first f xs)

length-insert_by_date :
    (m : MailRow) (xs : List MailRow) → length (insert_by_date m xs) ≡ suc (length xs)
unfolding insert_by_date
length-insert_by_date m [] = refl
length-insert_by_date m (x ∷ xs) = ground (arith, length-insert_by_date m xs)

length-newest_first : (xs : List MailRow) → length (newest_first xs) ≡ length xs
unfolding newest_first
length-newest_first [] = refl
length-newest_first (x ∷ xs) =
    omega (arith, length-insert_by_date x (newest_first xs), length-newest_first xs)

-- Up to 1000 mails are all listed.
any-select_entries :
    (f : MailRow → Bool) (box : ℕ) (t : Tables)
    → length (box_mails box t) ≤ 1000
    → any f (select_entries box t) ≡ any f (box_mails box t)
unfolding select_entries
any-select_entries f box t h =
    ap (any f) (
      take_all 1000 (newest_first (box_mails box t))
        (omega (arith, h, length-newest_first (box_mails box t))))
    ∙ any-newest_first f (box_mails box t)

any-as_entries :
    (f : Entry → Bool) (ms : List MailRow)
    → any f (as_entries ms)
      ≡ any (λ (m : MailRow). f (record { mail_id = m.uuid; size = m.size })) ms
any-as_entries f [] = refl
any-as_entries f (m ∷ ms) =
    ap (λ b. f (record { mail_id = m.uuid; size = m.size }) || b) (any-as_entries f ms)

-- The last mail is listed for a mailbox that has an entry for it.
pub last-listed :
    (f : Entry → Bool) (box : ℕ) (t : Tables) (ms : List MailRow) (m : MailRow)
    → t.mails ≡ ms ++ (m ∷ [])
    → in_mailbox box t m ≡ true
    → length (box_mails box t) ≤ 1000
    → f (record { mail_id = m.uuid; size = m.size }) ≡ true
    → any f (as_entries (select_entries box t)) ≡ true
last-listed f box t ms m at has few holds =
    let g : MailRow → Bool = λ r. f (record { mail_id = r.uuid; size = r.size }) in
    any-as_entries f (select_entries box t)
    ∙ (any-select_entries g box t few
        ∙ (ap (λ l. any g (rows (in_mailbox box t) l)) at
            ∙ any-rows g (in_mailbox box t) ms m has holds))

length-as_entries : (ms : List MailRow) → length (as_entries ms) ≡ length ms
length-as_entries [] = refl
length-as_entries (m ∷ ms) = omega (arith, length-as_entries ms)

-- No more than 1000 mails are listed.
pub length-listed : (box : ℕ) (t : Tables) → length (as_entries (select_entries box t)) ≤ 1000
unfolding select_entries
length-listed box t = omega (
  arith,
  length-as_entries (select_entries box t),
  length-take 1000 (newest_first (box_mails box t)),
)

-- what Entries returns when no call fails
pub entries-calm :
    (box : ℕ) (t : Tables)
    → (entries box (record { tables = t; faults = [] })).0
      ≡ ok (as_entries (select_entries box t), total_size (as_entries (select_entries box t)))
unfolding entries transact run_tx finish_tx
entries-calm box t = refl
