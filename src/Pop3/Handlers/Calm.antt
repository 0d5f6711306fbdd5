-- ===== src/Pop3/Handlers/Calm.antt =====
-- The other handlers of POP3 that are calm.
use briefmail.Base.{ℕ, ◌≡◌, ◌+◌, refl, ◌∙◌, not, List, [], ◌∷◌, Bytes, codes}
use briefmail.Outcome.{close_session, panic, err, Action, raise, of_option, ◌>>=◌, ◌>>◌}
use briefmail.Pop3.Session.{
  Command, args, positive, negative, Mailbox, Config, Session, on_conn, on_store, on_session_db,
  on_session_blobs, send,
}
use briefmail.Pop3.Handlers.{
  in_transaction, marked_mails, ignoring, quit, with_entry, one_arg, write_mail, send_mail, retr,
  mark, dele, noop, unmark, rset, stls, capability_lines, capa,
}
use briefmail.Storage.Blobs
use briefmail.Storage.Cleaner.{clean, on_db, on_blobs}
use briefmail.Storage.Db.{Db, Entry, delete_entries}
use briefmail.Stream.{Stream}
use briefmail.TextProto.Conn.{Conn, write_string, end_line, flush, upgrade_tls}
use briefmail.TextProto.Conn.Lines.{upgrade_tls-tokens}
use briefmail.Pop3.Handlers.Quiet.{
  Quiet, Calm, still, bind-Calm, if-Calm, on_conn-Calm, on_store-Calm, send-Calm, only_in-Calm,
}
use briefmail.Storage.Cleaner.Faultless.{clean-works}
use briefmail.Storage.Db.Transact.{transact-works}
use briefmail.Pop3.Handlers.Listing.{of_option-Calm, with_entry-Calm, one_arg-Calm}

write_mail-reader : (r : Stream) (c : Conn) → (write_mail r c).1.reader ≡ c.reader
unfolding write_mail
write_mail-reader r c = refl

send_mail-Calm : (p : ℕ × Entry) (s : Session) → Calm s (send_mail p s)
unfolding send_mail
send_mail-Calm (n, e) s =
    bind-Calm (send (positive (codes "message coming"))) _ s
      (send-Calm (positive (codes "message coming")) s)
      (λ _ s'.
        bind-Calm (on_session_blobs (Blobs.read e.mail_id)) _ s'
          (on_store-Calm (on_blobs (Blobs.read e.mail_id)) (λ x w. w) s')
          (λ r s''. on_conn-Calm (write_mail r) (write_mail-reader r) s''))

pub retr-Calm : (c : Command) (s : Session) → Calm s (retr c s)
unfolding retr
retr-Calm c s = only_in-Calm in_transaction (one_arg (with_entry send_mail) (args c)) s (λ _.
    one_arg-Calm (with_entry send_mail) (args c) s
      (λ arg. with_entry-Calm send_mail arg s (λ p. send_mail-Calm p s)))

mark-Calm : (p : ℕ × Entry) (s : Session) → Calm s (mark p s)
unfolding mark
mark-Calm (n, e) s = record {
  quiet =
      again
        (send-Calm (positive (codes "woosh")) (record s {
          mailbox = record s.mailbox {
            marks = n ∷ s.mailbox.marks;
            size_del = s.mailbox.size_del + e.size;
          };
        })).quiet;
}
  where
    again :
        {s' : Session}
        → Quiet
            (record s {
              mailbox = record s.mailbox {
                marks = n ∷ s.mailbox.marks;
                size_del = s.mailbox.size_del + e.size;
              };
            })
            s'
        → Quiet s s'
    again h = record {
      reader_is = h.reader_is;
      locks_are = h.locks_are;
      stage_is = h.stage_is;
      id_is = h.id_is;
      works = h.works;
    }

pub dele-Calm : (c : Command) (s : Session) → Calm s (dele c s)
unfolding dele
dele-Calm c s = only_in-Calm in_transaction (one_arg (with_entry mark) (args c)) s (λ _.
    one_arg-Calm (with_entry mark) (args c) s
      (λ arg. with_entry-Calm mark arg s (λ p. mark-Calm p s)))

pub noop-Calm : (c : Command) (s : Session) → Calm s (noop c s)
unfolding noop
noop-Calm c s = send-Calm (positive (codes "what did you expect?")) s

unmark-id : (m : Mailbox) (marks : List ℕ) → m.marks ≡ marks → (unmark m).id ≡ m.id
unmark-id m [] p = rw (p, unmark) refl
unmark-id m (n ∷ ns) p = rw (p, unmark) refl

pub rset-Calm : (c : Command) (s : Session) → Calm s (rset c s)
unfolding rset
rset-Calm c s =
    only_in-Calm in_transaction
      (λ s.
        send (positive (codes "lost some intel during time travel"))
          (record s { mailbox = unmark s.mailbox }))
      s
      (λ _.
        let h =
          (send-Calm (positive (codes "lost some intel during time travel"))
            (record s { mailbox = unmark s.mailbox })).quiet in
        record {
          quiet = record {
            reader_is = h.reader_is;
            locks_are = h.locks_are;
            stage_is = h.stage_is;
            id_is = h.id_is ∙ unmark-id s.mailbox s.mailbox.marks refl;
            works = h.works;
          };
        })

pub stls-Calm : (cfg : Config) (c : Command) (s : Session) → Calm s (stls cfg c s)
unfolding stls
stls-Calm cfg c s =
    if-Calm (not cfg.tls_config) s _ _
      (send-Calm (negative (codes "I am afraid, I lost my disguise!")) s)
      (if-Calm s.conn.is_tls s _ _ (send-Calm (negative (codes "what are you afraid of?")) s) (
        bind-Calm (send (positive (codes "ready to go undercover."))) (λ _. on_conn upgrade_tls) s
          (send-Calm (positive (codes "ready to go undercover.")) s)
          (λ _ s'. on_conn-Calm upgrade_tls upgrade_tls-tokens s')))

capability_lines-reader : (xs : List Bytes) (c : Conn) → (capability_lines xs c).reader ≡ c.reader
unfolding capability_lines
capability_lines-reader [] c = refl
capability_lines-reader (x ∷ xs) c = capability_lines-reader xs (end_line (write_string x c))

pub capa-Calm : (xs : List Bytes) (c : Command) (s : Session) → Calm s (capa xs c s)
unfolding capa
capa-Calm xs c s =
    bind-Calm (send (positive (codes "I can do some things"))) _ s
      (send-Calm (positive (codes "I can do some things")) s)
      (λ _ s'.
        on_conn-Calm (λ k. flush (end_line (write_string (codes ".") (capability_lines xs k))))
          (capability_lines-reader xs) s')

entries-works :
    (ms : List ℕ) (box : ℕ) (d : Db) → d.faults ≡ [] → (delete_entries ms box d).1.faults ≡ []
unfolding delete_entries
entries-works ms box d w = transact-works _ d w

abbrev delete_marked : ℕ → List ℕ → Action Session
delete_marked box mails = do
  on_session_db (delete_entries mails box)
  ignoring (on_store clean)
  raise close_session

delete_marked-Calm : (box : ℕ) (mails : List ℕ) (s : Session) → Calm s (delete_marked box mails s)
delete_marked-Calm box mails s =
    bind-Calm (on_session_db (delete_entries mails box)) _ s
      (on_store-Calm (on_db (delete_entries mails box)) (λ x w. entries-works mails box x.db w) s)
      (λ _ s'. record { quiet = (on_store-Calm clean clean-works s').quiet })

pub quit-Calm : (c : Command) (s : Session) → Calm s (quit c s)
unfolding quit
quit-Calm c s =
    if-Calm (in_transaction s.state) s
      ((of_option panic (marked_mails s.mailbox.entries s.mailbox.marks)
          >>= delete_marked s.mailbox.id)
        s)
      (err close_session, s)
      (of_option-Calm panic (marked_mails s.mailbox.entries s.mailbox.marks)
        (delete_marked s.mailbox.id) s (λ mails. delete_marked-Calm s.mailbox.id mails s))
      (still s _)
