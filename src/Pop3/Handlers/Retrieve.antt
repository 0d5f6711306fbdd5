-- ===== src/Pop3/Handlers/Retrieve.antt =====
-- What RETR of internal/pop3/handler.go sends.
use briefmail.Base.{
  ℕ, suc, ◌≡◌, refl, ap, arith, false, some, [], ◌∷◌, ◌++◌, append_assoc, Bytes, codes, get_elem?,
}
use briefmail.Outcome.{ok}
use briefmail.Pop3.Handlers.{retr, send_mail, write_mail, find_entry, is_marked, in_transaction}
use briefmail.Pop3.Session.{Command, args, s_transaction, Mailbox, Session, send, write_to}
use briefmail.Storage.Blobs
use briefmail.Storage.Db.{Entry}
use briefmail.Text.{pos, parse_int}
use briefmail.TextProto.Dot.{encode}

-- nothing that the session calls fails from here on
pub record Faultless (s : Session) : Type 0 where
  pub conn : s.conn.faults ≡ []
  pub blobs : s.store.blobs.faults ≡ []

find_entry-at :
    (m : Mailbox) (n : ℕ) (e : Entry)
    → get_elem? m.entries n ≡ some e
    → is_marked m.marks n ≡ false
    → find_entry m (pos (suc n)) ≡ some (n, e)
unfolding find_entry
find_entry-at m n e p q = ground arith

send_mail-out :
    (n : ℕ) (e : Entry) (s : Session) (bytes : Bytes)
    → Faultless s
    → s.store.blobs.files e.mail_id ≡ some bytes
    → let r = send_mail (n, e) s in
      (r.0 ≡ ok tt)
      × (r.1.conn.out ≡ s.conn.out ++ (codes "+OK message coming\r\n" ++ encode bytes))
unfolding send_mail write_mail send write_to Blobs.read Blobs.read_offset
send_mail-out n e s bytes f h = rw (f.conn, f.blobs, h) (refl, simp append_assoc)

-- RETR of a number in the list that is not marked, with the file of the mail there and no call that
-- fails, answers that the mail is coming, and behind it sends the dot-encoded bytes of that file.
pub retr-out :
    (c : Command) (s : Session) (arg : Bytes) (n : ℕ) (e : Entry) (bytes : Bytes)
    → s.state ≡ s_transaction
    → args c ≡ arg ∷ []
    → parse_int arg ≡ some (pos (suc n))
    → get_elem? s.mailbox.entries n ≡ some e
    → is_marked s.mailbox.marks n ≡ false
    → s.store.blobs.files e.mail_id ≡ some bytes
    → Faultless s
    → ((retr c s).0 ≡ ok tt)
      × ((retr c s).1.conn.out ≡ s.conn.out ++ (codes "+OK message coming\r\n" ++ encode bytes))
unfolding retr
retr-out c s arg n e bytes st one number at unmarked there f =
    rw (ap in_transaction st, one, number, find_entry-at s.mailbox n e at unmarked)
      (send_mail-out n e s bytes f there)
