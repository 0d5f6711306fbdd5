-- ===== src/Delivery/Client.antt =====
-- The `client` of internal/delivery/queue.go. Of its state a client that connect returns keeps the
-- connection, the session and the three lists; one that could not connect is dropped.
pub mod Sorted
use briefmail.Base.{ℕ, Bool, Option, List, [], ◌∷◌, ◌++◌, Bytes, codes, ◌==◌, if◌then◌else◌}
use briefmail.Outcome.{
  Error, could_not_connect, Result, ok, err, Exec, Action, pure, raise, ◌>>=◌, ◌>>◌,
}
use briefmail.Dns.{Mx, Resolver, query_mx}
use briefmail.Model.Address.{Address, to_string}
use briefmail.Stream.{Stream}

-- what the Rcpt of a session answers: a *textproto.Error has the code of the reply
pub data RcptReply : Type 0 where
  accepted : RcptReply
  refused : ℕ → RcptReply
  failed : Error → RcptReply

-- net.Dial, net/smtp and sort.Slice. Connections and sessions are numbers; `W` is what a call
-- changes.
pub record Network (W : Type 0) : Type 0 where
  pub resolver : Resolver W
  -- sort.Slice by `Preference`
  pub by_preference : List Mx → List Mx
  pub dial : Bytes → Exec W ℕ
  pub close_conn : ℕ → W → W
  pub new_client : ℕ → Bytes → Exec W ℕ
  pub hello : ℕ → Bytes → Action W
  pub extension : ℕ → Bytes → W → Bool × W
  pub start_tls : ℕ → Action W
  pub mail : ℕ → Bytes → Action W
  pub rcpt : ℕ → Bytes → W → RcptReply × W
  pub data_cmd : ℕ → Action W
  -- io.Copy into the writer that Data returns
  pub copy : ℕ → Stream → Action W
  -- Close of that writer, which reads the reply to the mail
  pub close_data : ℕ → Action W
  pub quit : ℕ → W → W

pub record Client : Type 0 where
  pub conn : ℕ
  pub client : ℕ
  pub delivered : List Address
  pub undeliverable : List Address
  pub pending : List Address

abbrev new_session : ℕ → ℕ → Client
new_session conn client = record {
  conn = conn;
  client = client;
  delivered = [];
  undeliverable = [];
  pending = [];
}

-- what a reply of Rcpt with a code adds to the lists
abbrev pub sort_reply : ℕ → Address → Client → Client
sort_reply code a c =
    if code == 550
    then record c { undeliverable = c.undeliverable ++ (a ∷ []) }
    else record c { pending = c.pending ++ (a ∷ []) }

module _ {W : Type 0} (n : Network W) where
  -- the loop over the records
  unfoldable pub try_hosts : List Mx → Exec W Client
  try_hosts [] w = (err could_not_connect, w)
  try_hosts (r ∷ rs) w =
      let d = n.dial r.mx w in
      elim d.0 [
        | err e ↦ try_hosts rs d.1
        | ok conn ↦
            let c = n.new_client conn r.mx d.1 in
            elim c.0 [
              | err e ↦ try_hosts rs (n.close_conn conn c.1)
              | ok client ↦ (ok (new_session conn client), c.1)
            ]
      ]

  -- (*client).connect
  unfoldable pub connect : Bytes → Exec W Client
  unfolding query_mx try_hosts
  connect domain = do records ← query_mx n.resolver domain; try_hosts (n.by_preference records)

  -- (*client).close, of a client that is connected
  unfoldable pub close : Client → W → W
  close c w = n.close_conn c.conn (n.quit c.client w)

  -- the loop over the recipients
  unfoldable pub rcpt_each : List Address → Client → Exec W Client
  rcpt_each [] c w = (ok c, w)
  rcpt_each (a ∷ as') c w =
      let r = n.rcpt c.client (to_string a) w in
      elim r.0 [
        | accepted ↦ rcpt_each as' (record c { delivered = c.delivered ++ (a ∷ []) }) r.1
        | refused code ↦ let c' = sort_reply code a c in rcpt_each as' c' r.1
        | failed e ↦ (err e, r.1)
      ]

  -- the STARTTLS that a host offers
  unfoldable pub secure : ℕ → Action W
  secure client w =
      let x = n.extension client (codes "STARTTLS") w in
      if x.0 then n.start_tls client x.1 else (ok tt, x.1)

  -- the copy, and the deferred Close, whose error nobody looks at
  unfoldable pub copy_mail : ℕ → Stream → Action W
  copy_mail client r w = let x = n.copy client r w in (x.0, (n.close_data client x.1).1)

  -- (*client).send
  unfoldable pub send : Stream → Bytes → Address → List Address → Client → Exec W Client
  unfolding secure rcpt_each copy_mail
  send r hostname from to c = do
    n.hello c.client hostname
    secure c.client
    n.mail c.client (to_string from)
    c' ← rcpt_each to c
    n.data_cmd c.client
    copy_mail c.client r
    pure c'
