-- ===== src/Tests/Journeys.antt =====
-- The theorem on the way of a mail at a concrete input: a mail to ann, who fetches it.
use briefmail.Base.{
  ◌+◌, Bytes, ℕ, refl, ◌≡◌, ◌++◌, false, Option, none, some, [], ◌∷◌, codes, equal, arith,
}
use briefmail.Outcome.{ok}
use briefmail.Delivery.Mailman.{Routes, deliver}
use briefmail.Delivery.Outbound.{Awaiting, deliver-Awaiting}
use briefmail.Delivery.Restart.{open_store-Awaiting}
use briefmail.Delivery.Retrieval.{calm, stored_as}
use briefmail.Journey.{retr_command, submit, data-retr}
use briefmail.Smtp.Data.{data_handler, mail_body, prepend_all}
use briefmail.Smtp.Data.Delivers.{dated}
use briefmail.Smtp.Session.{Config as SmtpConfig, Session as SmtpSession}
use briefmail.Smtp.Command.{Command as SmtpCommand}
use briefmail.Pop3.Handlers.{pass, retr}
use briefmail.Pop3.Session.{Command, args, s_user, Config, Session}
use briefmail.Storage.Blobs
use briefmail.Storage.Db
use briefmail.Delivery.Queue.{QueueConfig}
use briefmail.Tests.Outbound.{queue_config}
use briefmail.Storage.Db.{add_mail, add_entries, add_to_queue, authenticate}
use briefmail.Storage.Open.{Disk, left, open_store}
use briefmail.Storage.Cleaner.{Store}
use briefmail.Storage.Tables.{rows}
use briefmail.Tests.Connections.{unset_keys}
use briefmail.Delivery.Mailman.{Post}
use briefmail.Stream.{of_bytes}
use briefmail.Tests.{config, session, envelope, post, store, tables, ann, bob, plain_names}
use briefmail.Addressbook.{Entry, remote}
use briefmail.Model.Address.{string_value, bytes_value, Address, parse_address}
use briefmail.TextProto.Dot.{encode}

abbrev post_of_ann : Post
post_of_ann = record post {
  store = record store {
    db = record {
      tables = record tables {
        mailboxes = record { id = 1; name = codes "ann"; hash = codes "pw" } ∷ [];
      };
      faults = [];
    };
  };
}

abbrev to_box_1 : Routes
to_box_1 = record { mailboxes = 1 ∷ []; queue = [] }

abbrev pop3_config : Config
pop3_config = record {
  bcrypt = record { generate = ok; matches = λ hash secret. equal hash secret };
  tls_config = false;
  show_id = λ id. [];
}

abbrev smtp_config : SmtpConfig
smtp_config = record config { max_size = 50 }

-- a client of SMTP behind RCPT
abbrev submission : SmtpSession
submission = record session {
  conn = record {
    reader = record { tokens = codes "hi" ∷ codes "." ∷ []; fault = none };
    out = [];
    is_tls = false;
    remote_addr = [];
    faults = [];
  };
  envelope = envelope;
  post = post_of_ann;
}

abbrev data_command : SmtpCommand
data_command = record { head = codes "DATA"; tail = [] }

-- the session of ann behind USER
abbrev session_of_ann : Session
session_of_ann = record {
  conn = record {
    reader = record { tokens = []; fault = none };
    out = [];
    is_tls = false;
    remote_addr = [];
    faults = [];
  };
  state = s_user;
  name = codes "ann";
  mailbox = record { id = 0; marks = []; entries = []; size = 0; size_del = 0 };
  store = calm (submit smtp_config data_command 2 submission).store;
  locks = record { entries = λ key. false };
}

abbrev pass_command : Command
pass_command = record { head = codes "PASS"; tail = codes "pw" }

abbrev sent : Bytes
sent = (mail_body smtp_config (dated submission)).bytes

data-retr_example :
    (n : ℕ) × ((pass pop3_config pass_command session_of_ann).0 ≡ ok tt)
    × ((retr (retr_command n) (pass pop3_config pass_command session_of_ann).1).0 ≡ ok tt)
    × ((retr (retr_command n) (pass pop3_config pass_command session_of_ann).1).1.conn.out
        ≡ (pass pop3_config pass_command session_of_ann).1.conn.out
          ++ (codes "+OK message coming\r\n"
              ++ encode (stored_as (dated submission).envelope (of_bytes sent))))
unfolding deliver Blobs.write add_mail add_entries rows args authenticate equal prepend_all
    data_handler
data-retr_example =
    data-retr smtp_config data_command 2 sent submission to_box_1 1 pop3_config session_of_ann
      pass_command (codes "pw") refl refl refl refl (omega arith) refl refl refl refl refl refl

-- every address is somewhere else
abbrev elsewhere : Address → Option Entry
elsewhere a = some (record { kind = remote; mailbox = none; address = some a })

abbrev queued : Routes
queued = record { mailboxes = []; queue = ann ∷ [] }

deliver-Awaiting_example :
    Awaiting string_value plain_names 9 bob
      (ann ∷ [])
      (codes "hi")
      (calm (deliver elsewhere envelope (of_bytes (codes "hi")) post).1.store)
unfolding deliver Blobs.write add_mail add_entries add_to_queue parse_address
deliver-Awaiting_example =
    deliver-Awaiting elsewhere envelope (of_bytes (codes "hi")) plain_names 9 post queued bob refl
      refl (λ q. cc) refl refl refl refl (refl, tt) string_value refl

-- the database of a driver that hands a text over as bytes
abbrev bytes_config : QueueConfig (Unit {0})
bytes_config = record queue_config { driver = bytes_value }

-- nothing was ever stored
abbrev new_disk : Disk
new_disk = record { databases = λ name. none; folders = λ name id. none; faults = [] }

open_store-Awaiting_example :
    (t : Store) × ((open_store unset_keys
        (λ n. n + 50)
        (left unset_keys
          (deliver elsewhere envelope (of_bytes (codes "hi")) post).1.store
          new_disk)).0
      ≡ ok t)
    × Awaiting string_value plain_names 9 bob (ann ∷ []) (codes "hi") t
unfolding deliver Blobs.write add_mail add_entries add_to_queue parse_address
open_store-Awaiting_example =
    open_store-Awaiting elsewhere envelope (of_bytes (codes "hi")) plain_names 9 string_value post
      queued bob unset_keys (λ n. n + 50) new_disk refl refl (λ q. cc) refl refl refl refl
      (refl, tt) refl refl
