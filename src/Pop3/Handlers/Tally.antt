-- ===== src/Pop3/Handlers/Tally.antt =====
-- The account of the messages that a session has marked as deleted, under DELE and RSET of
-- internal/pop3/handler.go.
use briefmail.Base.{
  ℕ, zero, suc, ◌+◌, ◌<◌, ◌≡◌, refl, ap, subst, Bool, true, false, Option, none, some, List, [],
  ◌∷◌, Bytes, codes, inl, inr, Bool-cases, Option-cases, length, get_elem?, All, arith,
}
use briefmail.Outcome.{invalid_syntax, Result, Action, of_option, ◌>>=◌}
use briefmail.Pop3.Session.{
  Command, args, Reply, positive, negative, SessionState, Mailbox, Session, send,
}
use briefmail.Pop3.Handlers.{
  only_in, in_transaction, is_marked, entry_at, find_entry, no_message, with_entry, one_arg, mark,
  dele, unmark, rset,
}
use briefmail.Storage.Db.{Entry}
use briefmail.Text.{ℤ, pos, negsuc, parse_int}

-- the sizes of the marked entries together
abbrev pub marked_size : List Entry → List ℕ → ℕ
marked_size es [] = 0
marked_size es (n ∷ ns) = elim (get_elem? es n) [
  | none ↦ marked_size es ns
  | some e ↦ e.size + marked_size es ns
]

abbrev pub Distinct : List ℕ → Type 0
Distinct [] = Unit
Distinct (n ∷ ns) = (is_marked ns n ≡ false) × Distinct ns

-- The marks are numbers of entries, none twice; the size that is kept is that of the marked
-- entries; and there are no marks before the transaction.
pub record Tally (state : SessionState) (m : Mailbox) : Type 0 where
  pub in_range : All (λ n. n < length m.entries) m.marks
  pub distinct : Distinct m.marks
  pub size_is : m.size_del ≡ marked_size m.entries m.marks
  pub none_before : in_transaction state ≡ false → (m.marks ≡ []) × (m.size_del ≡ 0)

abbrev pub Tallied : Session → Type 0
Tallied s = Tally s.state s.mailbox

pub record Safe {A : Type 0} (p : Result A × Session) : Type 0 where
  pub inv : Tallied p.1

abbrev pub Keeps : Action Session → Type 0
Keeps m = (s : Session) → Tallied s → Safe (m s)

pub send-Keeps : (r : Reply) → Keeps (send r)
unfolding send
send-Keeps r s h = record { inv = h }

pub only_in-Safe :
    (allowed : SessionState → Bool) (m : Action Session) (s : Session)
    → (allowed s.state ≡ true → Safe (m s))
    → Tallied s
    → Safe (only_in allowed m s)
only_in-Safe allowed m s f h = elim (Bool-cases (allowed s.state)) [
  | inl yes_ ↦ rw yes_ (f yes_)
  | inr no_ ↦ rw no_ (record { inv = h })
]

get-lt : (es : List Entry) (n : ℕ) {e : Entry} → get_elem? es n ≡ some e → n < length es
get-lt [] n p = cc
get-lt (x ∷ es) zero p = omega arith
get-lt (x ∷ es) (suc n) p = omega (arith, get-lt es n p)

some-inj : {p q : ℕ × Entry} → some p ≡ some q → p ≡ q
some-inj {p = p} e = ap (λ o. elim o [ none ↦ p | some x ↦ x ]) e

-- An entry that was found is in the list and has no mark.
entry_at-some :
    (m : Mailbox) (n : ℕ) (p : ℕ × Entry)
    → entry_at m n ≡ some p
    → (get_elem? m.entries p.0 ≡ some p.1) × (is_marked m.marks p.0 ≡ false)
entry_at-some m n p h = elim (Option-cases (get_elem? m.entries n)) [
  | inl gone ↦ cc (rw (entry_at, gone) at h)
  | inr (e, there) ↦ elim (Bool-cases (is_marked m.marks n)) [
    | inl marked ↦ cc (rw (entry_at, there, marked) at h)
    | inr free ↦
        subst
          (λ (q : ℕ × Entry).
            (get_elem? m.entries q.0 ≡ some q.1) × (is_marked m.marks q.0 ≡ false))
          (some-inj (rw (entry_at, there, free) at h)) (there, free)
  ]
]

find_entry-some :
    (m : Mailbox) (n : ℤ) (p : ℕ × Entry)
    → find_entry m n ≡ some p
    → (get_elem? m.entries p.0 ≡ some p.1) × (is_marked m.marks p.0 ≡ false)
unfolding find_entry
find_entry-some m (pos (suc n)) p h = entry_at-some m n p h
find_entry-some m (pos zero) p h = cc
find_entry-some m (negsuc n) p h = cc

mark-Safe :
    (p : ℕ × Entry) (s : Session)
    → in_transaction s.state ≡ true
    → (get_elem? s.mailbox.entries p.0 ≡ some p.1) × (is_marked s.mailbox.marks p.0 ≡ false)
    → Tallied s
    → Safe (mark p s)
unfolding mark
mark-Safe (n, e) s t (there, free) h =
    send-Keeps (positive (codes "woosh"))
      (record s {
        mailbox = record s.mailbox {
          marks = n ∷ s.mailbox.marks;
          size_del = s.mailbox.size_del + e.size;
        };
      })
      (record {
        in_range = (get-lt s.mailbox.entries n there, h.in_range);
        distinct = (free, h.distinct);
        size_is = rw (marked_size, there) (omega (arith, h.size_is));
        none_before = λ q. cc;
      })

no_message-Safe : (s : Session) → Tallied s → Safe (no_message s)
unfolding no_message
no_message-Safe s h = send-Keeps (negative (codes "no such message")) s h

with_entry-Safe :
    (arg : Bytes) (s : Session)
    → in_transaction s.state ≡ true
    → Tallied s
    → Safe (with_entry mark arg s)
with_entry-Safe arg s t h = by_number (parse_int arg)
  where
    by_entry :
        (n : ℤ) (o : Option (ℕ × Entry))
        → find_entry s.mailbox n ≡ o
        → Safe {A = Unit {0}} (elim o [ none ↦ no_message s | some p ↦ mark p s ])
    by_entry n none q = no_message-Safe s h
    by_entry n (some p) q = mark-Safe p s t (find_entry-some s.mailbox n p q) h

    by_number :
        (o : Option ℤ)
        → Safe {A = Unit {0}} (
            (of_option invalid_syntax o >>= (λ n s. elim (find_entry s.mailbox n) [
              | none ↦ no_message s
              | some p ↦ mark p s
            ]))
              s)
    by_number none = record { inv = h }
    by_number (some n) = by_entry n (find_entry s.mailbox n) refl

one_arg-Safe :
    (as' : List Bytes) (s : Session)
    → in_transaction s.state ≡ true
    → Tallied s
    → Safe (one_arg (with_entry mark) as' s)
one_arg-Safe (arg ∷ []) s t h = with_entry-Safe arg s t h
one_arg-Safe [] s t h = record { inv = h }
one_arg-Safe (a ∷ b ∷ as') s t h = record { inv = h }

pub dele-Keeps : (c : Command) → Keeps (dele c)
unfolding dele
dele-Keeps c s h =
    only_in-Safe in_transaction (one_arg (with_entry mark) (args c)) s
      (λ t. one_arg-Safe (args c) s t h) h

unmark-Tally :
    (state : SessionState) (id : ℕ) (marks : List ℕ) (entries : List Entry) (size size_del : ℕ)
    → let m : Mailbox = record {
      id = id;
      marks = marks;
      entries = entries;
      size = size;
      size_del = size_del;
    } in
      Tally state m → Tally state (unmark m)
unmark-Tally state id [] entries size size_del h = h
unmark-Tally state id (n ∷ ns) entries size size_del h = record {
  in_range = tt;
  distinct = tt;
  size_is = refl;
  none_before = λ q. (refl, refl);
}

pub rset-Keeps : (c : Command) → Keeps (rset c)
unfolding rset
rset-Keeps c s h =
    let m = s.mailbox in
    only_in-Safe in_transaction
      (λ x.
        send (positive (codes "lost some intel during time travel"))
          (record x { mailbox = unmark x.mailbox }))
      s
      (λ t.
        send-Keeps (positive (codes "lost some intel during time travel"))
          (record s { mailbox = unmark s.mailbox })
          (unmark-Tally s.state m.id m.marks m.entries m.size m.size_del h))
      h
