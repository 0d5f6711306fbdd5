-- ===== src/Smtp/Data/Delivers.antt =====
-- That DATA of internal/smtp/handler.go hands the mail to Deliver.
use briefmail.Base.{ℕ, ◌≡◌, refl, ap, ◌∙◌, [], Bytes, codes}
use briefmail.Outcome.{reader_limit_reached, Result, ok, err}
use briefmail.Delivery.Mailman.{Post, deliver}
use briefmail.Smtp.Command.{Command}
use briefmail.Smtp.Data.{
  data_handler, with_entry, run_data_hooks, deliver_body, mail_body, prepend_all, discard, block,
}
use briefmail.Smtp.Session.{s_rcpt, Config, Session, send, send_conn, write_to, reply}
use briefmail.Storage.Cache
use briefmail.Storage.Cache.{CacheEntry}
use briefmail.Storage.Cache.Kept.{disk, Kept, of_bytes-Kept}
use briefmail.Stream.{of_bytes}

-- a session in which the connection and the cache do not fail
abbrev pub working : ℕ → Session → Session
working limit s = record s { conn = record s.conn { faults = [] }; cache = disk limit }

module _ (cfg : Config) (limit : ℕ) (bytes : Bytes) (s : Session) where
  -- what is sent behind Deliver
  answered :
      (r : Result (Unit {0}) × Post) (k : Kept limit bytes)
      → deliver cfg.lookup s.envelope (of_bytes bytes) s.post ≡ r
      → let t = with_entry (record cfg { data_hooks = [] }) k.entry (working limit s) in
        (t.0 ≡ r.0) × (t.1.post ≡ r.1)
  unfolding with_entry run_data_hooks deliver_body prepend_all send send_conn write_to
  answered (ok _, p) k e = rw (k.read_back, prepend_all, e) (refl, refl)
  answered (err x, p) k e = rw (k.read_back, prepend_all, e) (refl, refl)

-- the session when the mail is about to be received
abbrev pub dated : Session → Session
dated s = record s { envelope = record s.envelope { date = s.now } }

-- what DATA does with the outcome of the cache's Write
abbrev after_write :
    Config → Result CacheEntry × Cache.Cache → Session → Result (Unit {0}) × Session
after_write cfg w s =
    let s' = record s { cache = w.1 } in
    elim w.0 [
      | ok entry ↦ with_entry cfg entry s'
      | err reader_limit_reached ↦ discard cfg.max_size (block s'.conn.reader) s'
      | err e ↦ (err e, s')
    ]

-- the session behind the reply to the command
abbrev replied : ℕ → Session → Session
replied limit s = record (dated s) {
  conn = (send_conn (reply 354 (codes "go ahead. period.")) (record s.conn { faults = [] })).1;
  cache = disk limit;
  state = s_rcpt;
}

data_handler-after_write :
    (cfg : Config) (c : Command) (limit : ℕ) (s : Session)
    → data_handler (record cfg { data_hooks = [] }) c (record (working limit s) { state = s_rcpt })
      ≡ after_write
          (record cfg { data_hooks = [] })
          (Cache.write (mail_body cfg (dated s)) (disk limit))
          (replied limit s)
unfolding data_handler
data_handler-after_write cfg c limit s = refl

-- With no hook for the data, as DataHooks gives none, and no failure of the connection and of the
-- cache, DATA behind RCPT ends as Deliver ends for the mail under its header lines, and leaves what
-- Deliver leaves.
pub data_handler-deliver :
    (cfg : Config) (c : Command) (limit : ℕ) (bytes : Bytes) (s : Session)
    → mail_body cfg (dated s) ≡ of_bytes bytes
    → let d = deliver cfg.lookup (dated s).envelope (of_bytes bytes) s.post in
      let t =
        data_handler
          (record cfg { data_hooks = [] })
          c
          (record (working limit s) { state = s_rcpt }) in
      (t.0 ≡ d.0) × (t.1.post ≡ d.1)
unfolding send_conn write_to
data_handler-deliver cfg c limit bytes s e =
    let k = of_bytes-Kept limit bytes in
    let cfg' : Config = record cfg { data_hooks = [] } in
    let step =
      data_handler-after_write cfg c limit s
      ∙ (ap (λ m. after_write cfg' (Cache.write m (disk limit)) (replied limit s)) e
          ∙ ap (λ w. after_write cfg' w (replied limit s)) k.written) in
    rw step (answered cfg limit bytes (replied limit s) _ k refl)
