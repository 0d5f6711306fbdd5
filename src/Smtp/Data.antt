-- ===== src/Smtp/Data.antt =====
-- internal/smtp/handler.go: DATA. The dot reader and the limited reader are taken as the streams
-- that TextProto.Dot.Stream and Smtp.Limit.Refinement show them to be.
pub mod Keeps
pub mod Delivers
use briefmail.Base.{
  ℕ, ◌+◌, Bool, true, false, Option, none, some, List, [], ◌∷◌, ◌++◌, Bytes, codes, ltb,
  if◌then◌else◌, drop,
}
use briefmail.Outcome.{
  Error, eof, bad_sequence, reader_limit_reached, Result, ok, err, Exec, Action, pure, raise, lift,
  ◌>>=◌, ◌>>◌,
}
use briefmail.Delivery.Mailman.{deliver, shown}
use briefmail.Model.Address.{Address}
use briefmail.Model.Body.{prepend}
use briefmail.Smtp.Handlers.{Handler, Verdict, accept, reject, fail, judge}
use briefmail.Smtp.Limit.{limited}
use briefmail.Smtp.Session.{
  s_init, s_helo, s_mail, s_rcpt, HeaderField, HookResult, Config, Session, on_conn, on_post,
  on_cache, is_submission, reply, send,
}
use briefmail.Storage.Cache
use briefmail.Storage.Cache.{CacheEntry}
use briefmail.Stream.{Stream, read_all}
use briefmail.TextProto.Conn.{Conn, set_timeout}
use briefmail.TextProto.Dot.{Reader}
use briefmail.TextProto.Dot.Stream.{block_text, block_end, block_rest}

-- `for _, header := range headers { body.Prepend(header.Key, header.Value) }`
unfoldable pub prepend_all : List HeaderField → Stream → Stream
unfolding prepend
prepend_all [] body = body
prepend_all (h ∷ hs) body = prepend_all hs (prepend h.key h.value body).0

-- the value of the `Received` header
abbrev received : Config → Option Address → ℕ → Bytes
received cfg from date =
    codes "from " ++ (shown from ++ (codes " by (briefmail); " ++ cfg.format_date date))

-- s.DotReader()
abbrev pub block : Reader → Stream
block r = record { bytes = block_text r.tokens; end = block_end r.tokens r.fault }

-- the reader behind the block
abbrev pub skip_block : Conn → Conn
skip_block c = record c { reader = record c.reader { tokens = block_rest c.reader.tokens } }

abbrev pub limited_block : ℕ → Stream → Stream
limited_block max r = if ltb 0 max then limited (max + 1024) r else r

-- What `&limitedReader{r, maxSize}` has to give, where `r` has given all up to its limit.
abbrev overhang : ℕ → Stream → Stream
overhang max r = limited max (record r { bytes = drop (max + 1024) r.bytes })

-- the discarding of a mail that is too long
discard : ℕ → Stream → Action Session
unfolding send
discard max r = do
  lift (read_all (overhang max r))
  on_conn (λ c. (ok tt, skip_block c))
  send (reply 552 (codes "I am already full, thanks"))

unfoldable pub run_data_hooks :
    Config → List (Bool → Bytes → Result HookResult) → CacheEntry → Exec Session Verdict
unfolding Cache.reader
run_data_hooks cfg [] entry = pure (accept [])
run_data_hooks cfg (hook ∷ rest) entry = do
  r ← on_cache (Cache.reader entry)
  λ s. elim (hook (is_submission s) r.bytes) [
    | err e ↦ (err e, s)
    | ok result ↦
        if result.reject
        then (ok (judge (ok result) (accept [])), s)
        else (do v ← run_data_hooks cfg rest entry; pure (judge (ok result) v)) s
  ]

-- the end of DATA, behind the hooks
deliver_body : Config → CacheEntry → Verdict → Action Session
unfolding Cache.reader deliver prepend_all send
deliver_body cfg entry (fail e) = raise e
deliver_body cfg entry (reject r) = send r
deliver_body cfg entry (accept headers) = do
  r ← on_cache (Cache.reader entry)
  λ s. on_post (deliver cfg.lookup s.envelope (prepend_all headers r)) s
  λ s. send (reply 250 (codes "confirmed transfer.")) (record s { state = s_helo })

-- what follows the cache's Write, with the deferred Release
with_entry : Config → CacheEntry → Action Session
unfolding run_data_hooks deliver_body Cache.release
with_entry cfg entry s =
    let r =
      (do
        on_conn (λ c. (ok tt, skip_block c))
        v ← run_data_hooks cfg cfg.data_hooks entry
        deliver_body cfg entry v)
        s in
    (r.0, (on_cache (Cache.release entry) r.1).1)

-- the mail as it is read from the connection, under the headers of MAIL's hooks
abbrev pub mail_body : Config → Session → Stream
mail_body cfg s =
    prepend_all s.headers
      (prepend (codes "Received") (received cfg s.envelope.from s.envelope.date)
        (limited_block cfg.max_size (block s.conn.reader))).0

-- what follows the reply 354
receive : Config → Action Session
unfolding Cache.write with_entry discard prepend_all prepend
receive cfg = do
  on_conn set_timeout
  λ s. (ok tt, record s { envelope = record s.envelope { date = s.now } })
  λ s.
      let (written, s') = on_cache (Cache.write (mail_body cfg s)) s in
      elim written [
        | ok entry ↦ with_entry cfg entry s'
        | err reader_limit_reached ↦ discard cfg.max_size (block s'.conn.reader) s'
        | err e ↦ (err e, s')
      ]

-- data
unfoldable pub data_handler : Config → Handler
unfolding receive send
data_handler cfg c s = elim s.state [
  | s_rcpt ↦ (do send (reply 354 (codes "go ahead. period.")); receive cfg) s
  | _ ↦ (err bad_sequence, s)
]
