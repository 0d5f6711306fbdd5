-- ===== src/Storage/Cleaner/Orphans.antt =====
-- What Clean keeps and what it removes.
use briefmail.Base.{
  ℕ, ◌≡◌, refl, ap, ◌∙◌, inl, inr, Bool, true, false, not, Bool-cases, Option, none, some, List, [],
  ◌∷◌, map, Bytes, ◌==◌, All, arith,
}
use briefmail.Outcome.{Error, head_fault}
use briefmail.Storage.Blobs
use briefmail.Storage.Blobs.{Blobs}
use briefmail.Storage.Cleaner.{Store, clean, delete_blobs}
use briefmail.Storage.Db.{by_uuid, delete_mails, delete_orphans, transact, run_tx, finish_tx}
use briefmail.Storage.Tables.{
  MailRow, Tables, rows, first_row, is_referenced, select_orphans, delete_mail,
}

-- The selected mails are unreferenced.
orphans-at :
    (t : Tables) (ms : List MailRow)
    → All
        (λ u. is_referenced t u ≡ false)
        (map (λ (m : MailRow). m.uuid) (rows (λ (m : MailRow). not (is_referenced t m.uuid)) ms))
unfolding rows
orphans-at t [] = tt
orphans-at t (m ∷ ms) = elim (Bool-cases (is_referenced t m.uuid)) [
  | inl used ↦ rw used (orphans-at t ms)
  | inr unused ↦ rw unused (unused, orphans-at t ms)
]

select_orphans-unreferenced : (t : Tables) → All (λ u. is_referenced t u ≡ false) (select_orphans t)
unfolding select_orphans
select_orphans-unreferenced t = orphans-at t t.mails

-- A delete of another mail leaves this one.
delete-other : (a b : ℕ) (s : Blobs) → (a == b) ≡ false → (Blobs.delete a s).1.files b ≡ s.files b
unfolding Blobs.delete
delete-other a b s ne = by_steps (head_fault s.faults) (s.files a) refl refl
  where
    by_steps :
        (f : Option Error) (o : Option Bytes)
        → head_fault s.faults ≡ f
        → s.files a ≡ o
        → (Blobs.delete a s).1.files b ≡ s.files b
    by_steps (some e) o p q = rw (p, Blobs.delete) refl
    by_steps none none p q = rw (p, Blobs.delete, q) refl
    by_steps none (some c) p q = rw (p, Blobs.delete, q, ne) refl

same_id : (a b : ℕ) → (a == b) ≡ true → a ≡ b
same_id a b h = ground arith

differ :
    (t : Tables) (a b : ℕ) → is_referenced t a ≡ false → is_referenced t b ≡ true → (a == b) ≡ false
differ t a b p q = elim (Bool-cases (a == b)) [
  | inl same ↦ cc (p, q, ap (is_referenced t) (same_id a b same))
  | inr other ↦ other
]

differ' :
    (t : Tables) (a b : ℕ) → is_referenced t a ≡ false → is_referenced t b ≡ true → (b == a) ≡ false
differ' t a b p q = elim (Bool-cases (b == a)) [
  | inl same ↦ cc (p, q, ap (is_referenced t) (same_id b a same))
  | inr other ↦ other
]

differs : (p : ℕ → Bool) (a b : ℕ) → p a ≡ false → p b ≡ true → (a == b) ≡ false
differs p a b x y = elim (Bool-cases (a == b)) [
  | inl same ↦ cc (x, y, ap p (same_id a b same))
  | inr other ↦ other
]

delete_blobs-other :
    (t : Tables) (ms : List ℕ) (b : ℕ) (s : Blobs)
    → All (λ u. is_referenced t u ≡ false) ms
    → is_referenced t b ≡ true
    → (delete_blobs ms s).files b ≡ s.files b
unfolding delete_blobs
delete_blobs-other t [] b s h q = refl
delete_blobs-other t (m ∷ ms) b s h q =
    delete_blobs-other t ms b (Blobs.delete m s).1 h.1 q ∙ delete-other m b s (differ t m b h.0 q)

-- The rows that a test on the uuid keeps have the rows of an uuid that passes it.
kept_row :
    (p : ℕ → Bool) (u : ℕ) (ms : List MailRow)
    → p u ≡ true
    → first_row (rows (λ (m : MailRow). m.uuid == u) (rows (λ (m : MailRow). p m.uuid) ms))
      ≡ first_row (rows (λ (m : MailRow). m.uuid == u) ms)
unfolding rows
kept_row p u [] h = refl
kept_row p u (m ∷ ms) h = elim (Bool-cases (p m.uuid)) [
  | inl passes ↦ elim (Bool-cases (m.uuid == u)) [
    | inl same ↦ rw (passes, same) refl
    | inr other ↦ rw (passes, other) (kept_row p u ms h)
  ]
  | inr fails ↦ rw (fails, differs p m.uuid u fails h) (kept_row p u ms h)
]

delete_mails-other :
    (t : Tables) (ms : List ℕ) (u : ℕ) (t' : Tables)
    → All (λ a. is_referenced t a ≡ false) ms
    → is_referenced t u ≡ true
    → by_uuid u (delete_mails ms t') ≡ by_uuid u t'
unfolding delete_mails delete_mail
delete_mails-other t [] u t' h q = refl
delete_mails-other t (m ∷ ms) u t' h q =
    delete_mails-other t ms u (delete_mail m t') h.1 q
    ∙ kept_row (λ a. not (a == m)) u t'.mails (ap not (differ' t m u h.0 q))

-- Clean leaves every mail that has an entry or is queued: its row and its blob, whichever of the
-- calls fail.
pub clean-referenced :
    (s : Store) (u : ℕ)
    → is_referenced s.db.tables u ≡ true
    → (by_uuid u (clean s).1.db.tables ≡ by_uuid u s.db.tables)
      × ((clean s).1.blobs.files u ≡ s.blobs.files u)
unfolding clean delete_orphans transact run_tx finish_tx
clean-referenced s u h = by_fault (head_fault s.db.faults) refl
  where
    by_fault :
        (f : Option Error)
        → head_fault s.db.faults ≡ f
        → (by_uuid u (clean s).1.db.tables ≡ by_uuid u s.db.tables)
          × ((clean s).1.blobs.files u ≡ s.blobs.files u)
    by_fault (some e) p = rw (p, clean) (refl, refl)
    by_fault none p =
        let o = select_orphans-unreferenced s.db.tables in
        rw (p, clean)
          (
            delete_mails-other s.db.tables (select_orphans s.db.tables) u s.db.tables o h,
            delete_blobs-other s.db.tables (select_orphans s.db.tables) u s.blobs o h,
          )
