-- ===== src/Pop3/Handlers/Quiet.antt =====
-- The handlers of POP3 that leave the lock of the mailbox alone.
use briefmail.Base.{
  ◌≡◌, refl, ◌∙◌, Bool, true, false, inl, inr, Bool-cases, Option-cases, [], if◌then◌else◌,
}
use briefmail.Outcome.{Result, ok, err, Exec, Action, continue, ◌>>=◌, ◌>>◌, head_fault}
use briefmail.Pop3.Session.{Reply, SessionState, Session, on_conn, on_store, send, write_to}
use briefmail.Pop3.Handlers.{only_in, in_transaction}
use briefmail.Storage.Cleaner.{Store}
use briefmail.TextProto.Conn.{Conn, set_timeout}

-- `s'` reads from where `s` does, with the same locks; it is in a transaction just if `s` is, of the
-- same mailbox; and a database that does not fail still does not.
pub record Quiet (s s' : Session) : Type 0 where
  pub reader_is : s'.conn.reader ≡ s.conn.reader
  pub locks_are : s'.locks ≡ s.locks
  pub stage_is : in_transaction s'.state ≡ in_transaction s.state
  pub id_is : s'.mailbox.id ≡ s.mailbox.id
  pub works : s.store.db.faults ≡ [] → s'.store.db.faults ≡ []

-- what a handler leaves, beside what it returns
pub record Calm {A : Type 0} (s : Session) (p : Result A × Session) : Type 0 where
  pub quiet : Quiet s p.1

pub still : {A : Type 0} (s : Session) (r : Result A) → Calm s (r, s)
still s r = record {
  quiet = record {
    reader_is = refl;
    locks_are = refl;
    stage_is = refl;
    id_is = refl;
    works = λ w. w;
  };
}

pub Quiet-trans : {s t u : Session} → Quiet s t → Quiet t u → Quiet s u
Quiet-trans h k = record {
  reader_is = k.reader_is ∙ h.reader_is;
  locks_are = k.locks_are ∙ h.locks_are;
  stage_is = k.stage_is ∙ h.stage_is;
  id_is = k.id_is ∙ h.id_is;
  works = λ w. k.works (h.works w);
}

pub continue-Calm :
    {A B : Type 0} (s s' : Session) (r : Result A) (f : A → Exec Session B)
    → Quiet s s'
    → ((a : A) → Calm s' (f a s'))
    → Calm s (continue r f s')
continue-Calm s s' (ok a) f h k = record { quiet = Quiet-trans h (k a).quiet }
continue-Calm s s' (err e) f h k = record { quiet = h }

pub bind-Calm :
    {A B : Type 0} (m : Exec Session A) (f : A → Exec Session B) (s : Session)
    → Calm s (m s)
    → ((a : A) (s' : Session) → Calm s' (f a s'))
    → Calm s ((m >>= f) s)
bind-Calm m f s h k = continue-Calm s (m s).1 (m s).0 f h.quiet (λ a. k a (m s).1)

pub if-Calm :
    {A : Type 0} (b : Bool) (s : Session) (x y : Result A × Session)
    → Calm s x
    → Calm s y
    → Calm s (if b then x else y)
if-Calm true s x y h k = h
if-Calm false s x y h k = k

pub on_conn-Calm :
    {A : Type 0} (m : Exec Conn A)
    → ((c : Conn) → (m c).1.reader ≡ c.reader)
    → (s : Session) → Calm s (on_conn m s)
on_conn-Calm m same s = record {
  quiet = record {
    reader_is = same s.conn;
    locks_are = refl;
    stage_is = refl;
    id_is = refl;
    works = λ w. w;
  };
}

pub on_store-Calm :
    {A : Type 0} (m : Exec Store A)
    → ((x : Store) → x.db.faults ≡ [] → (m x).1.db.faults ≡ [])
    → (s : Session) → Calm s (on_store m s)
on_store-Calm m works s = record {
  quiet = record {
    reader_is = refl;
    locks_are = refl;
    stage_is = refl;
    id_is = refl;
    works = works s.store;
  };
}

reply-reader : (r : Reply) (c : Conn) → ((do set_timeout; write_to r) c).1.reader ≡ c.reader
unfolding write_to
reply-reader r c = elim (Option-cases (head_fault c.faults)) [
  | inl through ↦ rw through refl
  | inr (e, fault) ↦ rw fault refl
]

pub send-Calm : (r : Reply) (s : Session) → Calm s (send r s)
unfolding send
send-Calm r s = on_conn-Calm (do set_timeout; write_to r) (reply-reader r) s

pub only_in-Calm :
    (allowed : SessionState → Bool) (m : Action Session) (s : Session)
    → (allowed s.state ≡ true → Calm s (m s))
    → Calm s (only_in allowed m s)
only_in-Calm allowed m s f = elim (Bool-cases (allowed s.state)) [
  | inl due ↦ rw due (f due)
  | inr early ↦ rw early (still s _)
]
