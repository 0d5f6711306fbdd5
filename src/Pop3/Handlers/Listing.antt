-- ===== src/Pop3/Handlers/Listing.antt =====
-- The handlers of POP3 that read and list: USER, STAT, LIST and UIDL are calm.
use briefmail.Base.{
  ℕ, suc, ◌≡◌, refl, sym, ◌∙◌, true, false, inl, inr, Bool-cases, Option, none, some, List, [], ◌∷◌,
  ◌++◌, Bytes, codes, length,
}
use briefmail.Outcome.{Error, invalid_syntax, Action, of_option, ◌>>=◌}
use briefmail.Pop3.Session.{
  Command, args, Reply, positive, negative, SessionState, s_init, s_user, s_transaction, Config,
  Session, send,
}
use briefmail.Pop3.Handlers.{
  in_transaction, before_transaction, take_name, user, two_numbers, stat, is_marked, find_entry,
  no_message, with_entry, list_lines, list_all, by_args, list_header, list, uidl, one_arg,
}
use briefmail.Storage.Db.{Entry}
use briefmail.Text.{parse_int, itoa}
use briefmail.TextProto.Conn.{Conn, write_string, end_line, flush}
use briefmail.Pop3.Handlers.Quiet.{Calm, still, Quiet-trans, on_conn-Calm, send-Calm, only_in-Calm}

-- a record that differs in what has no part in `Quiet`
pub of_option-Calm :
    {A : Type 0} (e : Error) (o : Option A) (f : A → Action Session) (s : Session)
    → ((a : A) → Calm s (f a s))
    → Calm s ((of_option e o >>= f) s)
of_option-Calm e none f s k = still s _
of_option-Calm e (some a) f s k = k a

take_name-Calm :
    (ws : List Bytes) (s : Session) → in_transaction s.state ≡ false → Calm s (take_name ws s)
unfolding take_name
take_name-Calm (name ∷ []) s out =
    let h =
      (send-Calm (positive (codes "now the secret"))
        (record s { name = name; state = s_user })).quiet in
    record {
      quiet = record {
        reader_is = h.reader_is;
        locks_are = h.locks_are;
        stage_is = h.stage_is ∙ sym out;
        id_is = h.id_is;
        works = h.works;
      };
    }
take_name-Calm [] s out = still s _
take_name-Calm (a ∷ b ∷ ws) s out = still s _

before-not_in : (x : SessionState) → before_transaction x ≡ true → in_transaction x ≡ false
before-not_in s_init p = refl
before-not_in s_user p = refl
before-not_in s_transaction p = cc

pub user-Calm : (c : Command) (s : Session) → Calm s (user c s)
unfolding user
user-Calm c s =
    only_in-Calm before_transaction (take_name (args c)) s
      (λ p. take_name-Calm (args c) s (before-not_in s.state p))

no_message-Calm : (s : Session) → Calm s (no_message s)
unfolding no_message
no_message-Calm s = send-Calm (negative (codes "no such message")) s

pub with_entry-Calm :
    (f : ℕ × Entry → Action Session) (arg : Bytes) (s : Session)
    → ((p : ℕ × Entry) → Calm s (f p s))
    → Calm s (with_entry f arg s)
with_entry-Calm f arg s k =
    of_option-Calm invalid_syntax (parse_int arg)
      (λ n s. elim (find_entry s.mailbox n) [ none ↦ no_message s | some p ↦ f p s ]) s
      (λ n. by_entry (find_entry s.mailbox n))
  where
    by_entry :
        (o : Option (ℕ × Entry))
        → Calm {A = Unit {0}} s (elim o [ none ↦ no_message s | some p ↦ f p s ])
    by_entry none = no_message-Calm s
    by_entry (some p) = k p

by_args-Calm :
    (all : Action Session) (one : Bytes → Action Session) (ws : List Bytes) (s : Session)
    → Calm s (all s)
    → ((arg : Bytes) → Calm s (one arg s))
    → Calm s (by_args all one ws s)
by_args-Calm all one [] s h k = h
by_args-Calm all one (arg ∷ []) s h k = k arg
by_args-Calm all one (a ∷ b ∷ ws) s h k = still s _

pub one_arg-Calm :
    (f : Bytes → Action Session) (ws : List Bytes) (s : Session)
    → ((arg : Bytes) → Calm s (f arg s))
    → Calm s (one_arg f ws s)
one_arg-Calm f (arg ∷ []) s k = k arg
one_arg-Calm f [] s k = still s _
one_arg-Calm f (a ∷ b ∷ ws) s k = still s _

list_lines-reader :
    (show : Entry → Bytes) (marks : List ℕ) (i : ℕ) (es : List Entry) (c : Conn)
    → (list_lines show marks i es c).reader ≡ c.reader
unfolding list_lines
list_lines-reader show marks i [] c = refl
list_lines-reader show marks i (e ∷ es) c = elim (Bool-cases (is_marked marks i)) [
  | inl gone ↦ rw (list_lines, gone) (list_lines-reader show marks (suc i) es c)
  | inr there ↦
      rw (list_lines, there)
        (list_lines-reader show marks (suc i) es
          (end_line (write_string (itoa (suc i) ++ (codes " " ++ show e)) c)))
]

list_all-Calm : (r : Reply) (show : Entry → Bytes) (s : Session) → Calm s (list_all r show s)
unfolding list_all
list_all-Calm r show s =
    let s' = (send r s).1 in
    record {
      quiet =
          Quiet-trans (send-Calm r s).quiet
            (on_conn-Calm
              (λ c. flush (
                end_line (
                  write_string (codes ".")
                    (list_lines show s'.mailbox.marks 0 s'.mailbox.entries c))))
              (list_lines-reader show s'.mailbox.marks 0 s'.mailbox.entries) s').quiet;
    }

pub stat-Calm : (c : Command) (s : Session) → Calm s (stat c s)
unfolding stat
stat-Calm c s =
    only_in-Calm in_transaction
      (λ s. send (positive (two_numbers (length s.mailbox.entries) s.mailbox.size)) s) s
      (λ _. send-Calm (positive (two_numbers (length s.mailbox.entries) s.mailbox.size)) s)

pub list-Calm : (c : Command) (s : Session) → Calm s (list c s)
unfolding list
list-Calm c s =
    only_in-Calm in_transaction
      (by_args (λ s. list_all (positive (list_header s.mailbox)) (λ e. itoa e.size) s)
        (with_entry λ p. send (positive (two_numbers p.0 p.1.size))) (args c))
      s
      (λ _.
        by_args-Calm (λ s. list_all (positive (list_header s.mailbox)) (λ e. itoa e.size) s)
          (with_entry λ p. send (positive (two_numbers p.0 p.1.size))) (args c) s
          (list_all-Calm (positive (list_header s.mailbox)) (λ e. itoa e.size) s)
          (λ arg.
            with_entry-Calm (λ p. send (positive (two_numbers p.0 p.1.size))) arg s
              (λ p. send-Calm (positive (two_numbers p.0 p.1.size)) s)))

pub uidl-Calm : (cfg : Config) (c : Command) (s : Session) → Calm s (uidl cfg c s)
unfolding uidl
uidl-Calm cfg c s =
    only_in-Calm in_transaction
      (by_args (list_all (positive (codes "list follows")) (λ e. cfg.show_id e.mail_id))
        (with_entry λ p. send (positive (itoa p.0 ++ (codes " " ++ cfg.show_id p.1.mail_id))))
        (args c))
      s
      (λ _.
        by_args-Calm (list_all (positive (codes "list follows")) (λ e. cfg.show_id e.mail_id))
          (with_entry λ p. send (positive (itoa p.0 ++ (codes " " ++ cfg.show_id p.1.mail_id))))
          (args c) s
          (list_all-Calm (positive (codes "list follows")) (λ e. cfg.show_id e.mail_id) s)
          (λ arg.
            with_entry-Calm
              (λ p. send (positive (itoa p.0 ++ (codes " " ++ cfg.show_id p.1.mail_id)))) arg s
              (λ p. send-Calm (positive (itoa p.0 ++ (codes " " ++ cfg.show_id p.1.mail_id))) s)))
