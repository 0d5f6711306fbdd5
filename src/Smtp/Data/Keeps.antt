-- ===== src/Smtp/Data/Keeps.antt =====
-- DATA keeps the invariant of a session.
use native.Mathlib.Nat.{le_refl}
use briefmail.Base.{ℕ, ◌≡◌, refl, Bool, List, [], ◌∷◌, Bytes, codes, length, if◌then◌else◌}
use briefmail.Outcome.{reader_limit_reached, Result, ok, err, Exec, pure, ◌>>=◌}
use briefmail.Delivery.Mailman.{deliver}
use briefmail.Smtp.Command.{Command}
use briefmail.Smtp.Data.{
  prepend_all, block, skip_block, overhang, discard, run_data_hooks, deliver_body, with_entry,
  mail_body, receive, data_handler,
}
use briefmail.Smtp.Handlers.{Verdict, accept, reject, fail, judge}
use briefmail.Smtp.Invariant.{
  Inv, Safe, Keeps, leave, continue-Safe, if-Safe, bind-Keeps, send-Keeps, on_conn-Keeps,
  on_post-Keeps, on_cache-Keeps,
}
use briefmail.Smtp.Session.{
  SessionState, s_init, s_helo, s_mail, s_rcpt, HookResult, Config, Session, on_conn, on_post,
  on_cache, is_submission, reply, send,
}
use briefmail.Storage.Cache
use briefmail.Storage.Cache.{CacheEntry}
use briefmail.Stream.{Stream, read_all}
use briefmail.TextProto.Conn.{set_timeout}
use briefmail.TextProto.Conn.Lines.{block_rest-le}

module _ (cfg : Config) (n : ℕ) where
  skip_block-Keeps : Keeps cfg n (on_conn (λ c. (ok tt, skip_block c)))
  skip_block-Keeps =
      on_conn-Keeps cfg n (λ c. (ok tt, skip_block c)) (λ c. block_rest-le c.reader.tokens)

  hook-Safe :
      (r : Result HookResult) (s : Session) (later : Exec Session Verdict)
      → Inv cfg n s
      → Keeps cfg n later
      → Safe cfg n {A = Verdict} (elim r [
        | err e ↦ (err e, s)
        | ok result ↦
            if result.reject
            then (ok (judge (ok result) (accept [])), s)
            else (do v ← later; pure (judge (ok result) v)) s
      ])
  hook-Safe (err e) s later h k = record { inv = h }
  hook-Safe (ok result) s later h k =
      if-Safe cfg n result.reject _ _ (λ _. record { inv = h })
        (λ _.
          bind-Keeps cfg n later (λ v. pure (judge (ok result) v)) k
            (λ v s' h'. record { inv = h' }) s h)

  run_data_hooks-Keeps :
      (hooks : List (Bool → Bytes → Result HookResult)) (entry : CacheEntry)
      → Keeps cfg n (run_data_hooks cfg hooks entry)
  unfolding run_data_hooks
  run_data_hooks-Keeps [] entry s h = record { inv = h }
  run_data_hooks-Keeps (hook ∷ rest) entry s h =
      bind-Keeps cfg n (on_cache (Cache.reader entry)) _ (on_cache-Keeps cfg n (Cache.reader entry))
        (λ r s' h'.
          hook-Safe (hook (is_submission s') r.bytes) s' (run_data_hooks cfg rest entry) h'
            (run_data_hooks-Keeps rest entry))
        s h

  deliver_body-Keeps : (entry : CacheEntry) (v : Verdict) → Keeps cfg n (deliver_body cfg entry v)
  unfolding deliver_body
  deliver_body-Keeps entry (fail e) s h = record { inv = h }
  deliver_body-Keeps entry (reject r) s h = send-Keeps cfg n r s h
  deliver_body-Keeps entry (accept headers) s h =
      bind-Keeps cfg n (on_cache (Cache.reader entry)) _ (on_cache-Keeps cfg n (Cache.reader entry))
        (λ r.
          bind-Keeps cfg n (λ s. on_post (deliver cfg.lookup s.envelope (prepend_all headers r)) s)
            _ (λ s. on_post-Keeps cfg n (deliver cfg.lookup s.envelope (prepend_all headers r)) s)
            (λ _ s h.
              send-Keeps cfg n (reply 250 (codes "confirmed transfer."))
                (record s { state = s_helo })
                (leave cfg n s.state s.envelope.from s.envelope.to s.mailbox s.conn.reader.tokens h
                  s_helo refl (λ p. cc))))
        s h

  with_entry-Keeps : (entry : CacheEntry) → Keeps cfg n (with_entry cfg entry)
  unfolding with_entry
  with_entry-Keeps entry s h = record {
    inv =
        (bind-Keeps cfg n (on_conn (λ c. (ok tt, skip_block c))) _ skip_block-Keeps
          (λ _.
            bind-Keeps cfg n (run_data_hooks cfg cfg.data_hooks entry) (deliver_body cfg entry)
              (run_data_hooks-Keeps cfg.data_hooks entry) (deliver_body-Keeps entry))
          s h).inv;
  }

  discard-Keeps : (max : ℕ) (r : Stream) → Keeps cfg n (discard max r)
  unfolding discard
  discard-Keeps max r s h = continue-Safe cfg n (read_all (overhang max r)) _ s h (λ _ _.
      bind-Keeps cfg n (on_conn (λ c. (ok tt, skip_block c))) _ skip_block-Keeps
        (λ _. send-Keeps cfg n (reply 552 (codes "I am already full, thanks"))) s h)

  written-Safe :
      (r : Result CacheEntry) (s : Session)
      → Inv cfg n s
      → Safe cfg n {A = Unit {0}} (elim r [
        | ok entry ↦ with_entry cfg entry s
        | err reader_limit_reached ↦ discard cfg.max_size (block s.conn.reader) s
        | err e ↦ (err e, s)
      ])
  written-Safe (ok entry) s h = with_entry-Keeps entry s h
  written-Safe (err reader_limit_reached) s h = discard-Keeps cfg.max_size (block s.conn.reader) s h
  written-Safe (err _) s h = record { inv = h }

  receive-Keeps : Keeps cfg n (receive cfg)
  unfolding receive
  receive-Keeps s h =
      bind-Keeps cfg n (on_conn set_timeout) _
        (on_conn-Keeps cfg n set_timeout (λ c. le_refl (length c.reader.tokens)))
        (λ _ s1 h1.
          written-Safe
            (on_cache
              (Cache.write
                (mail_body cfg (record s1 { envelope = record s1.envelope { date = s1.now } })))
              (record s1 { envelope = record s1.envelope { date = s1.now } })).0
            (on_cache
              (Cache.write
                (mail_body cfg (record s1 { envelope = record s1.envelope { date = s1.now } })))
              (record s1 { envelope = record s1.envelope { date = s1.now } })).1
            h1)
        s h

  data_in :
      (c : Command) (s : Session) (x : SessionState)
      → s.state ≡ x
      → Inv cfg n s
      → Safe cfg n (data_handler cfg c s)
  unfolding data_handler
  data_in c s s_rcpt p h =
      rw (p, data_handler)
        (bind-Keeps cfg n (send (reply 354 (codes "go ahead. period."))) (λ _. receive cfg)
          (send-Keeps cfg n (reply 354 (codes "go ahead. period."))) (λ _. receive-Keeps) s h)
  data_in c s s_init p h = rw (p, data_handler) (record { inv = h })
  data_in c s s_helo p h = rw (p, data_handler) (record { inv = h })
  data_in c s s_mail p h = rw (p, data_handler) (record { inv = h })

  pub data_handler-Keeps : (c : Command) → Keeps cfg n (data_handler cfg c)
  data_handler-Keeps c s h = data_in c s s.state refl h
