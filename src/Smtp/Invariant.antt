-- ===== src/Smtp/Invariant.antt =====
-- What holds of a session between two commands.
use native.Mathlib.Nat.{le_refl, le_trans}
use briefmail.Base.{
  ℕ, ◌≤◌, ◌≡◌, ◌≢◌, refl, Bool, true, false, inl, inr, Option, some, Bytes, List, [], if◌then◌else◌,
  length, All, Option-cases,
}
use briefmail.Outcome.{Result, ok, err, Exec, head_fault, continue, ◌>>=◌}
use briefmail.Model.Address.{Address}
use briefmail.Delivery.Mailman.{Post}
use briefmail.Smtp.Handlers.{may_send, may_receive}
use briefmail.Smtp.Session.{
  send_conn, write_to, SessionState, s_mail, s_rcpt, Config, Session, Reply, send, on_conn, on_post,
  on_cache,
}
use briefmail.Storage.Cache.{Cache}
use briefmail.TextProto.Conn.{Conn}

abbrev pub in_mail : SessionState → Bool
in_mail s_mail = true
in_mail s_rcpt = true
in_mail _ = false

-- The sender may be used by this session: a session that has logged in sends from an address of
-- its own mailbox, any other from an address that is not local.
pub record Sender (cfg : Config) (mailbox : Option ℕ) (from : Option Address) : Type 0 where
  pub address : Address
  pub from_is : from ≡ some address
  pub allowed : may_send mailbox (cfg.lookup address) ≡ ok true

-- Between MAIL and the end of the mail the sender may be used by the session; the recipients are
-- known, at most 101, and none is remote unless the session has logged in; in state `s_rcpt` there
-- is one. At most `n` lines are left to read.
pub record Good (cfg : Config) (n : ℕ) (state : SessionState) (from : Option Address)
    (to : List Address) (mailbox : Option ℕ) (tokens : List Bytes) : Type 0 where
  pub sender : in_mail state ≡ true → Sender cfg mailbox from
  pub recipients : All (λ a. may_receive mailbox (cfg.lookup a) ≡ true) to
  pub room : length to ≤ 101
  pub some_recipient : state ≡ s_rcpt → to ≢ []
  pub lines : length tokens ≤ n

abbrev pub Inv : Config → ℕ → Session → Type 0
Inv cfg n s = Good cfg n s.state s.envelope.from s.envelope.to s.mailbox s.conn.reader.tokens

-- What a handler returns and leaves behind: the session still has the invariant.
pub record Safe (cfg : Config) (n : ℕ) {A : Type 0} (p : Result A × Session) : Type 0 where
  pub inv : Inv cfg n p.1

-- A reply reads nothing.
send_conn-reader : (r : Reply) (c : Conn) → (send_conn r c).1.reader ≡ c.reader
unfolding send_conn write_to
send_conn-reader r c = elim (Option-cases (head_fault c.faults)) [
  | inl none_left ↦ rw none_left refl
  | inr (e, fault) ↦ rw fault refl
]

send_conn-lines :
    (r : Reply) (c : Conn) → length (send_conn r c).1.reader.tokens ≤ length c.reader.tokens
send_conn-lines r c = rw send_conn-reader (le_refl (length c.reader.tokens))

module _ (cfg : Config) (n : ℕ) where
  abbrev pub Keeps : {A : Type 0} → Exec Session A → Type 0
  Keeps m = (s : Session) → Inv cfg n s → Safe cfg n (m s)

  pub stay : {A : Type 0} (r : Result A) (s : Session) → Inv cfg n s → Safe cfg n (r, s)
  stay r s h = record { inv = h }

  pub continue-Safe :
      {A B : Type 0} (r : Result A) (f : A → Exec Session B) (s : Session)
      → Inv cfg n s
      → ((a : A) → r ≡ ok a → Safe cfg n (f a s))
      → Safe cfg n (continue r f s)
  continue-Safe (ok a) f s h k = k a refl
  continue-Safe (err e) f s h k = record { inv = h }

  pub if-Safe :
      {A : Type 0} (b : Bool) (x y : Result A × Session)
      → (b ≡ true → Safe cfg n x)
      → (b ≡ false → Safe cfg n y)
      → Safe cfg n (if b then x else y)
  if-Safe true x y f g = f refl
  if-Safe false x y f g = g refl

  pub if-Safe-at :
      {A : Type 0} (b : Bool) (m m' : Exec Session A) (s : Session)
      → (b ≡ true → Safe cfg n (m s))
      → (b ≡ false → Safe cfg n (m' s))
      → Safe cfg n ((if b then m else m') s)
  if-Safe-at true m m' s f g = f refl
  if-Safe-at false m m' s f g = g refl

  pub bind-Keeps :
      {A B : Type 0} (m : Exec Session A) (f : A → Exec Session B)
      → Keeps m
      → ((a : A) → Keeps (f a))
      → Keeps (m >>= f)
  bind-Keeps m f km kf s h =
      continue-Safe (m s).0 f (m s).1 (km s h).inv (λ a _. kf a (m s).1 (km s h).inv)

  -- A connection, the shared objects and the cache have no part in the invariant.
  pub on_conn-Keeps :
      {A : Type 0} (m : Exec Conn A)
      → ((c : Conn) → length (m c).1.reader.tokens ≤ length c.reader.tokens)
      → Keeps (on_conn m)
  on_conn-Keeps m k s h = record {
    inv = record {
      sender = h.sender;
      recipients = h.recipients;
      room = h.room;
      some_recipient = h.some_recipient;
      lines = le_trans (k s.conn) h.lines;
    };
  }

  pub send-Keeps : (r : Reply) → Keeps (send r)
  unfolding send
  send-Keeps r s h = on_conn-Keeps (send_conn r) (send_conn-lines r) s h

  pub on_post-Keeps : {A : Type 0} (m : Exec Post A) → Keeps (on_post m)
  on_post-Keeps m s h = record { inv = h }

  pub on_cache-Keeps : {A : Type 0} (m : Exec Cache A) → Keeps (on_cache m)
  on_cache-Keeps m s h = record { inv = h }

  -- Leaving a mail makes no claim on the sender.
  pub leave :
      (state : SessionState) (from : Option Address) (to : List Address) (m : Option ℕ)
      (tokens : List Bytes)
      → Good cfg n state from to m tokens
      → (state' : SessionState) → in_mail state' ≡ false
      → (state' ≢ s_rcpt)
      → Good cfg n state' from to m tokens
  leave state from to m tokens h state' out ne = record {
    sender = λ p. cc;
    recipients = h.recipients;
    room = h.room;
    some_recipient = λ p. absurd (ne p);
    lines = h.lines;
  }
