-- ===== src/Journey.antt =====
-- A mail on its way through the program: from DATA of internal/smtp/handler.go through Deliver of
-- internal/delivery/mailman.go and internal/storage to PASS and RETR of internal/pop3/handler.go.
use briefmail.Base.{
  ℕ, suc, ◌≤◌, ◌≡◌, ◌≢◌, refl, sym, subst, ap, ◌∙◌, true, false, Option, [], ◌∷◌, ◌++◌, any, ◌==◌,
  length, Bytes, codes, arith,
}
use briefmail.Outcome.{ok}
use briefmail.Addressbook.{Entry}
use briefmail.Delivery.Mailman.{Post, Routes, deliver, route}
use briefmail.Delivery.Retrieval.{calm, stored_as, Retrievable, deliver-Retrievable}
use briefmail.Model.Address.{Address, Envelope}
use briefmail.Smtp.Data.{data_handler, mail_body}
use briefmail.Smtp.Data.Delivers.{working as smooth, dated, data_handler-deliver}
use briefmail.Smtp.Session.{Config as SmtpConfig, Session as SmtpSession}
use briefmail.Smtp.Session.{s_rcpt}
use briefmail.Smtp.Command.{Command as SmtpCommand}
use briefmail.Pop3.Handlers.{pass, retr}
use briefmail.Pop3.Handlers.Login.{opened, pass-opened}
use briefmail.Pop3.Handlers.Retrieve.{retr-out}
use briefmail.Pop3.Session.{Command, args, s_user, Config, Session}
use briefmail.Storage.Cleaner.{Store}
use briefmail.Storage.Db.{authenticate}
use briefmail.Storage.Db.Listing.{box_mails}
use briefmail.Stream.{Stream, of_bytes}
use briefmail.Text.{itoa, fields}
use briefmail.Text.Decimal.{parse_int-itoa, fields-itoa, itoa-ne-nil}
use briefmail.TextProto.Dot.{encode}

-- the command RETR with the number of an entry, counted from 0 here and from 1 there
abbrev pub retr_command : ℕ → Command
retr_command n = record { head = codes "RETR"; tail = itoa (suc n) }

args-retr_command : (n : ℕ) → args (retr_command n) ≡ itoa (suc n) ∷ []
unfolding args
args-retr_command n = of_tail (itoa (suc n)) (itoa-ne-nil (suc n)) ∙ fields-itoa (suc n)
  where
    of_tail : (t : Bytes) → t ≢ [] → args (record { head = codes "RETR"; tail = t }) ≡ fields t
    of_tail [] h = absurd (h refl)
    of_tail (c ∷ t) h = refl

module _ (lookup : Address → Option Entry) (envelope : Envelope) (mail : Stream) (p : Post)
    (routes : Routes) (box : ℕ) (cfg : Config) (s : Session) (c : Command) (secret : Bytes)
    (accepted : (deliver lookup envelope mail p).0 ≡ ok tt)
    (routed : route lookup envelope.to ≡ ok routes)
    (to : any (λ m. m == box) routes.mailboxes ≡ true)
    (few : length (box_mails box (deliver lookup envelope mail p).1.store.db.tables) ≤ 1000)
    (same : s.store ≡ calm (deliver lookup envelope mail p).1.store) (working : s.conn.faults ≡ [])
    (at_user : s.state ≡ s_user) (one : args c ≡ secret ∷ [])
    (known : (authenticate cfg.bcrypt s.name secret s.store.db).0 ≡ ok (box, true))
    (free : s.locks.entries box ≡ false) where
  delivered : Retrievable box (stored_as envelope mail) s.store
  delivered = rw same (deliver-Retrievable lookup envelope mail p routes box accepted routed to few)

  logged_in : pass cfg c s ≡ (ok tt, opened s box delivered.list)
  logged_in =
      pass-opened cfg c s secret box delivered.list at_user one working
        (ap (λ (x : Store). x.db.faults) same) known free delivered.listed

  fetched :
      let r = retr (retr_command delivered.number) (opened s box delivered.list) in
      (r.0 ≡ ok tt)
      × (r.1.conn.out
          ≡ (opened s box delivered.list).conn.out
            ++ (codes "+OK message coming\r\n" ++ encode (stored_as envelope mail)))
  fetched =
      retr-out (retr_command delivered.number) (opened s box delivered.list)
        (itoa (suc delivered.number)) delivered.number _ (stored_as envelope mail) refl
        (args-retr_command delivered.number)
        (parse_int-itoa (suc delivered.number) (omega (arith, delivered.near))) delivered.entry_is
        refl delivered.stored
        (record { conn = working; blobs = ap (λ (x : Store). x.blobs.faults) same })

  -- From Deliver on: the mail comes back.
  deliver-retr :
      (n : ℕ) × ((pass cfg c s).0 ≡ ok tt)
      × ((retr (retr_command n) (pass cfg c s).1).0 ≡ ok tt)
      × ((retr (retr_command n) (pass cfg c s).1).1.conn.out
          ≡ (pass cfg c s).1.conn.out
            ++ (codes "+OK message coming\r\n" ++ encode (stored_as envelope mail)))
  deliver-retr =
      (delivered.number, rw logged_in refl, rw logged_in fetched.0, rw logged_in fetched.1)

-- DATA in a session of SMTP that has a recipient, with the cache, the connection and no hook
abbrev pub submit : SmtpConfig → SmtpCommand → ℕ → SmtpSession → Post
submit cfg c limit s =
    (data_handler (record cfg { data_hooks = [] }) c
      (record (smooth limit s) { state = s_rcpt })).1.post

-- A mail that a client of SMTP sends with DATA comes back through POP3. Where DATA of a session with
-- recipients ends without an error, on a connection and a cache that do not fail and with no hook for
-- the data, and one of the recipients has the mailbox, which then holds up to 1000 mails: when nobody
-- has the mailbox open, and from then on no call on the connection, the database or the file system
-- fails, PASS with the secret of the mailbox opens it, and for some number RETR answers that the mail
-- is coming, and sends the dot-encoded bytes of the Return-Path that names the sender, and behind it
-- of the mail under its header lines, as it was read up to its end.
pub data-retr :
    (cfg : SmtpConfig) (d : SmtpCommand) (limit : ℕ) (bytes : Bytes) (submission : SmtpSession)
    (routes : Routes) (box : ℕ) (cfg' : Config) (s : Session) (c : Command) (secret : Bytes)
    → mail_body cfg (dated submission) ≡ of_bytes bytes
    → (data_handler
        (record cfg { data_hooks = [] })
        d
        (record (smooth limit submission) { state = s_rcpt })).0
      ≡ ok tt
    → route cfg.lookup submission.envelope.to ≡ ok routes
    → any (λ m. m == box) routes.mailboxes ≡ true
    → length (box_mails box (submit cfg d limit submission).store.db.tables) ≤ 1000
    → s.store ≡ calm (submit cfg d limit submission).store
    → s.conn.faults ≡ []
    → s.state ≡ s_user
    → args c ≡ secret ∷ []
    → (authenticate cfg'.bcrypt s.name secret s.store.db).0 ≡ ok (box, true)
    → s.locks.entries box ≡ false
    → (n : ℕ) × ((pass cfg' c s).0 ≡ ok tt)
      × ((retr (retr_command n) (pass cfg' c s).1).0 ≡ ok tt)
      × ((retr (retr_command n) (pass cfg' c s).1).1.conn.out
          ≡ (pass cfg' c s).1.conn.out
            ++ (codes "+OK message coming\r\n"
                ++ encode (stored_as (dated submission).envelope (of_bytes bytes))))
data-retr cfg d limit bytes submission routes box cfg' s c secret whole fine routed to few same
      working at_user one known free =
    let (ended, left) = data_handler-deliver cfg d limit bytes submission whole in
    deliver-retr cfg.lookup (dated submission).envelope (of_bytes bytes) submission.post routes box
      cfg' s c secret (sym ended ∙ fine) routed to
      (subst (λ (p : Post). length (box_mails box p.store.db.tables) ≤ 1000) left few)
      (same ∙ ap (λ (p : Post). calm p.store) left) working at_user one known free
