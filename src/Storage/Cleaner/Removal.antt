-- ===== src/Storage/Cleaner/Removal.antt =====
-- That Clean removes all that it may.
use briefmail.Base.{
  ℕ, ◌≡◌, refl, ap, sym, subst, inl, inr, Bool, true, false, not, Bool-cases, Option, none, some,
  List, [], ◌∷◌, map, Bytes, ◌==◌, ◌||◌, All, any, arith,
}
use briefmail.Outcome.{head_fault}
use briefmail.Storage.Blobs
use briefmail.Storage.Blobs.{Blobs}
use briefmail.Storage.Cleaner.{Store, clean, delete_blobs}
use briefmail.Storage.Db.{delete_mails, delete_orphans, transact, run_tx, finish_tx}
use briefmail.Storage.Tables.{MailRow, Tables, rows, is_referenced, select_orphans, delete_mail}

-- Each row is referenced, or is one of the mails still to be deleted.
abbrev Covered : Tables → List ℕ → List MailRow → Type 0
Covered t os = All λ m. (is_referenced t m.uuid || any (λ o. m.uuid == o) os) ≡ true

rows-All :
    (P : MailRow → Type 0) (Q : MailRow → Type 0) (p : MailRow → Bool) (ms : List MailRow)
    → ((m : MailRow) → p m ≡ true → P m → Q m)
    → All P ms
    → All Q (rows p ms)
unfolding rows
rows-All P Q p [] f h = tt
rows-All P Q p (m ∷ ms) f h = elim (Bool-cases (p m)) [
  | inl passes ↦ rw passes (f m passes h.0, rows-All P Q p ms f h.1)
  | inr fails ↦ rw fails (rows-All P Q p ms f h.1)
]

delete_mails-Covered :
    (t t' : Tables) (os : List ℕ) → Covered t os t'.mails → Covered t [] (delete_mails os t').mails
unfolding delete_mails delete_mail
delete_mails-Covered t t' [] h = h
delete_mails-Covered t t' (o ∷ os) h = delete_mails-Covered t (delete_mail o t') os (
    rows-All (λ m. (is_referenced t m.uuid || any (λ o. m.uuid == o) (o ∷ os)) ≡ true)
      (λ m. (is_referenced t m.uuid || any (λ o. m.uuid == o) os) ≡ true) (λ m. not (m.uuid == o))
      t'.mails (λ m p q. ground arith) h)

-- One more mail to delete covers no less.
Covered-cons :
    (t : Tables) (o : ℕ) (os : List ℕ) (ms : List MailRow) → Covered t os ms → Covered t (o ∷ os) ms
Covered-cons t o os [] h = tt
Covered-cons t o os (m ∷ ms) h = (ground arith, Covered-cons t o os ms h.1)

rows_skip :
    (p : MailRow → Bool) (m : MailRow) (ms : List MailRow)
    → p m ≡ false
    → rows p (m ∷ ms) ≡ rows p ms
unfolding rows
rows_skip p m ms h = rw h refl

rows_take :
    (p : MailRow → Bool) (m : MailRow) (ms : List MailRow)
    → p m ≡ true
    → rows p (m ∷ ms) ≡ m ∷ rows p ms
unfolding rows
rows_take p m ms h = rw h refl

abbrev unused_in : Tables → MailRow → Bool
unused_in t m = not (is_referenced t m.uuid)

abbrev uuids : List MailRow → List ℕ
uuids = map λ (m : MailRow). m.uuid

orphans-Covered : (t : Tables) (ms : List MailRow) → Covered t (uuids (rows (unused_in t) ms)) ms
orphans-Covered t [] = tt
orphans-Covered t (m ∷ ms) = elim (Bool-cases (is_referenced t m.uuid)) [
  | inl used ↦
      subst (λ rs. Covered t (uuids rs) (m ∷ ms)) (sym (rows_skip (unused_in t) m ms (ap not used)))
        (ground arith, orphans-Covered t ms)
  | inr unused ↦
      subst (λ rs. Covered t (uuids rs) (m ∷ ms))
        (sym (rows_take (unused_in t) m ms (ap not unused)))
        (
          ground arith,
          Covered-cons t m.uuid (uuids (rows (unused_in t) ms)) ms (orphans-Covered t ms),
        )
]

selected : (t : Tables) → Covered t (select_orphans t) t.mails
unfolding select_orphans
selected t = orphans-Covered t t.mails

Covered-nil :
    (t : Tables) (ms : List MailRow)
    → Covered t [] ms
    → All (λ (m : MailRow). is_referenced t m.uuid ≡ true) ms
Covered-nil t [] h = tt
Covered-nil t (m ∷ ms) h = (ground arith, Covered-nil t ms h.1)

same : (n : ℕ) → (n == n) ≡ true
same n = ground arith

-- What a call of Delete does to a blob, when the file system works.
delete-faults : (a : ℕ) (s : Blobs) → s.faults ≡ [] → (Blobs.delete a s).1.faults ≡ []
unfolding Blobs.delete
delete-faults a s w = by_file (s.files a) refl
  where
    by_file : (o : Option Bytes) → s.files a ≡ o → (Blobs.delete a s).1.faults ≡ []
    by_file none p = rw (w, Blobs.delete, p) refl
    by_file (some c) p = rw (w, Blobs.delete, p) refl

delete_self : (a : ℕ) (s : Blobs) → s.faults ≡ [] → (Blobs.delete a s).1.files a ≡ none
unfolding Blobs.delete
delete_self a s w = by_file (s.files a) refl
  where
    by_file : (o : Option Bytes) → s.files a ≡ o → (Blobs.delete a s).1.files a ≡ none
    by_file none p = rw (w, Blobs.delete, p) p
    by_file (some c) p = rw (w, Blobs.delete, p, same a) refl

delete-none :
    (a u : ℕ) (s : Blobs) → s.faults ≡ [] → s.files u ≡ none → (Blobs.delete a s).1.files u ≡ none
unfolding Blobs.delete
delete-none a u s w q = by_file (s.files a) refl
  where
    by_file : (o : Option Bytes) → s.files a ≡ o → (Blobs.delete a s).1.files u ≡ none
    by_file none p = rw (w, Blobs.delete, p) q
    by_file (some c) p = elim (Bool-cases (a == u)) [
      | inl here ↦ rw (w, Blobs.delete, p, here) refl
      | inr other ↦ rw (w, Blobs.delete, p, other) q
    ]

delete_blobs-none :
    (os : List ℕ) (u : ℕ) (s : Blobs)
    → s.faults ≡ []
    → s.files u ≡ none
    → (delete_blobs os s).files u ≡ none
unfolding delete_blobs
delete_blobs-none [] u s w q = q
delete_blobs-none (o ∷ os) u s w q =
    delete_blobs-none os u (Blobs.delete o s).1 (delete-faults o s w) (delete-none o u s w q)

delete_blobs-gone :
    (os : List ℕ) (u : ℕ) (s : Blobs)
    → s.faults ≡ []
    → any (λ o. u == o) os ≡ true
    → (delete_blobs os s).files u ≡ none
unfolding delete_blobs
delete_blobs-gone [] u s w h = cc
delete_blobs-gone (o ∷ os) u s w h = elim (Bool-cases (u == o)) [
  | inl here ↦
      delete_blobs-none os u (Blobs.delete o s).1 (delete-faults o s w)
        (subst (λ x. (Blobs.delete o s).1.files x ≡ none) (ground arith) (delete_self o s w))
  | inr other ↦ delete_blobs-gone os u (Blobs.delete o s).1 (delete-faults o s w) (ground arith)
]

-- When neither the database nor the file system fails, Clean leaves no mail that has no entry and
-- is not queued, and no blob of a mail `u` that it selects for removal.
pub clean-removes :
    (s : Store) (u : ℕ)
    → head_fault s.db.faults ≡ none
    → s.blobs.faults ≡ []
    → any (λ o. u == o) (select_orphans s.db.tables) ≡ true
    → All (λ (m : MailRow). is_referenced s.db.tables m.uuid ≡ true) (clean s).1.db.tables.mails
      × ((clean s).1.blobs.files u ≡ none)
unfolding clean delete_orphans transact run_tx finish_tx
clean-removes s u d w h =
    rw (d, clean)
      (
        Covered-nil s.db.tables (delete_mails (select_orphans s.db.tables) s.db.tables).mails (
            delete_mails-Covered s.db.tables s.db.tables (select_orphans s.db.tables)
              (selected s.db.tables)),
        delete_blobs-gone (select_orphans s.db.tables) u s.blobs w h,
      )
