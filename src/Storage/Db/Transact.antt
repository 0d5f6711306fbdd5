-- ===== src/Storage/Db/Transact.antt =====
-- What the transactions of a delivery leave in the tables.
use briefmail.Base.{
  ℕ, ◌≡◌, refl, ap, sym, ◌∙◌, inl, inr, Bool-cases, Option, none, some, List, [], ◌∷◌, ◌++◌, map,
  append-nil, append_assoc, any, ◌&&◌, ◌==◌,
}
use briefmail.Outcome.{Error, Result, ok, err, Exec, head_fault, tail_faults}
use briefmail.Outcome.Ends.{Ends, ok-inj, bind-Ends, map-Ends}
use briefmail.Storage.Db.{Db, transact, run_tx, finish_tx, exec, insert_entries}
use briefmail.Storage.Tables.{EntryRow, Tables, insert_entry}

-- A transaction that ends well has run on the tables.
pub transact-Ends :
    {A : Type 0} (fn : Exec Tables A) (d : Db) (Q : A → Tables → Type 0)
    → Ends Q (fn d.tables)
    → Ends (λ a d'. Q a d'.tables) (transact fn d)
unfolding transact run_tx
transact-Ends {A} fn d Q h = by_fault (head_fault d.faults) refl
  where
    by_run :
        (d' : Db) (r : Result A) (t : Tables)
        → Ends Q (r, t)
        → Ends (λ a d'. Q a d'.tables) (finish_tx (r, t) d')
    by_run d' (ok a) t h = record { holds = λ b p. h.holds b p }
    by_run d' (err e) t h = record { holds = λ b p. cc }

    by_fault :
        (f : Option Error) → head_fault d.faults ≡ f → Ends (λ a d'. Q a d'.tables) (transact fn d)
    by_fault (some e) p = rw (p, transact) (record { holds = λ b q. cc })
    by_fault none p =
        rw (p, transact)
          (by_run (record d { faults = tail_faults d.faults }) (fn d.tables).0 (fn d.tables).1 h)

abbrev pub as_entry : ℕ → ℕ → EntryRow
as_entry uuid m = record { mailbox = m; mail = uuid }

-- a statement that inserts one row
pub exec-Ends :
    (f : Tables → Result Tables) (t : Tables) (Q : Tables → Type 0)
    → ((t' : Tables) → f t ≡ ok t' → Q t')
    → Ends (λ _ t'. Q t') (exec f t)
exec-Ends f t Q h = by_result (f t) refl
  where
    by_result : (r : Result Tables) → f t ≡ r → Ends (λ _ t'. Q t') (exec f t)
    by_result (ok t') p = rw (exec, p) (record { holds = λ _ q. h t' p })
    by_result (err e) p = rw (exec, p) (record { holds = λ _ q. cc })

insert_entry-ok :
    (m uuid : ℕ) (t t' : Tables)
    → insert_entry m uuid t ≡ ok t'
    → t' ≡ record t { entries = t.entries ++ (as_entry uuid m ∷ []) }
unfolding insert_entry
insert_entry-ok m uuid t t' h =
    elim (Bool-cases (any (λ (r : EntryRow). r.mailbox == m && r.mail == uuid) t.entries)) [
      | inl there ↦ cc (rw there at h)
      | inr free ↦ sym (ok-inj (rw free at h))
    ]

pub insert_entries-Ends :
    (uuid : ℕ) (ms : List ℕ) (t : Tables)
    → Ends
        (λ _ t'. t' ≡ record t { entries = t.entries ++ map (as_entry uuid) ms })
        (insert_entries uuid ms t)
unfolding insert_entries insert_entry
insert_entries-Ends uuid [] t = record {
  holds = λ _ p. ap (λ es. record t { entries = es }) (sym (append-nil t.entries));
}
insert_entries-Ends uuid (m ∷ ms) t =
    bind-Ends (λ _ t'. t' ≡ record t { entries = t.entries ++ (as_entry uuid m ∷ []) })
      (λ _ t''. t'' ≡ record t { entries = t.entries ++ map (as_entry uuid) (m ∷ ms) })
      (exec (insert_entry m uuid) t).0 (λ _. insert_entries uuid ms)
      (exec (insert_entry m uuid) t).1
      (exec-Ends (insert_entry m uuid) t _ (insert_entry-ok m uuid t))
      (λ _ e.
        map-Ends _ _ (insert_entries uuid ms (exec (insert_entry m uuid) t).1)
          (λ _ p.
            p
            ∙ ap (λ (x : Tables). record x { entries = x.entries ++ map (as_entry uuid) ms }) e
            ∙ ap {B = Tables} (λ es. record t { entries = es })
                (append_assoc t.entries (as_entry uuid m ∷ []) (map (as_entry uuid) ms)))
          (insert_entries-Ends uuid ms (exec (insert_entry m uuid) t).1))

-- A transaction uses up one fault, if there is one.
pub transact-works :
    {A : Type 0} (fn : Exec Tables A) (d : Db) → d.faults ≡ [] → (transact fn d).1.faults ≡ []
unfolding transact run_tx
transact-works {A} fn d w = rw (w, transact) (by_run (fn d.tables).0 (fn d.tables).1)
  where
    by_run :
        (r : Result A) (t : Tables) → (finish_tx (r, t) (record d { faults = [] })).1.faults ≡ []
    by_run (ok a) t = unfold finish_tx in refl
    by_run (err e) t = unfold finish_tx in refl
