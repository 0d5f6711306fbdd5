-- ===== src/Tests.antt =====
-- The theorems at concrete inputs: a server for one domain with the mailbox of ann@a.b.
mod Texts
mod Sessions
mod Outbound
mod Settings
mod Connections
mod Journeys
use briefmail.Base.{
  All, ℕ, ◌+◌, ◌<◌, ◌≡◌, refl, Bool, true, false, Option, none, some, List, [], ◌∷◌, ◌++◌, Bytes,
  codes, equal, arith,
}
use briefmail.Outcome.{eof, reader_limit_reached, Result, ok, err, ◌>>=◌}
use briefmail.Addressbook
use briefmail.Addressbook.{Addressbook, Entry, local, remote, assign}
use briefmail.Addressbook.Lookup.{IsAnswer, lookup-most_specific, parse-lookup}
use briefmail.Delivery.Mailman.{Post, deliver}
use briefmail.Delivery.Mailman.Laws.{Delivered, deliver-Delivered}
use briefmail.Model.Address.{
  Address, Normalizer, Envelope, parse_address, scan_address, to_string, contains, Splits, IsParsed,
  parse_address-Splits, parse_address-IsParsed, scan-to_string,
}
use briefmail.Model.Body.{prepend}
use briefmail.Model.Body.Folding.{IsPrepended, prepend-IsPrepended}
use briefmail.Pop3.Handlers.{user, pass, dele, rset}
use briefmail.Pop3.Handlers.Tally.{Tallied}
use briefmail.Pop3.Handlers.Marks.{marks-Tallied}
use briefmail.Pop3.Session
use briefmail.Smtp.Command.{Command}
use briefmail.Smtp.Invariant.{Inv}
use briefmail.Smtp.Limit.{Limited, limited_read}
use briefmail.Smtp.Limit.Refinement.{Stopped}
use briefmail.Smtp.Proto.{helo_verb, handler, handle}
use briefmail.Smtp.Proto.Invariant.{handler-Inv, handle-Inv}
use briefmail.Smtp.Session.{Config, Session, s_init}
use briefmail.Storage.Blobs
use briefmail.Storage.Blobs.{Blobs}
use briefmail.Storage.Cache.{write, reader}
use briefmail.Storage.Cache.RoundTrip.{write-reader}
use briefmail.Storage.Cleaner.{Store, clean}
use briefmail.Storage.Cleaner.Removal.{clean-removes}
use briefmail.Storage.Cleaner.Orphans.{clean-referenced}
use briefmail.Storage.Db.{Bcrypt, by_uuid, add_mail, add_entries}
use briefmail.Storage.Tables.{MailRow, is_referenced, select_orphans, Tables}
use briefmail.Stream.{of_bytes, read_all}
use briefmail.TextProto.Dot.{Reader, DotReader, dot_reader, scan_lines, encode, read}
use briefmail.TextProto.Dot.Stream.{
  Holds, Left, read-IsStream, block_text, block_end, block_rest, copy-dot_reader,
}
use briefmail.TextProto.Dot.RoundTrip.{unlines, crlf_lines, last_line, copy-encode}
use briefmail.TextProto.Io.{copy, finished}

abbrev plain_names : Normalizer
plain_names = record { user = ok; domain = ok }

abbrev ann : Address
ann = record { raw = codes "ann@a.b"; user = codes "ann"; domain = codes "a.b" }

abbrev bob : Address
bob = record { raw = codes "bob@c.d"; user = codes "bob"; domain = codes "c.d" }

abbrev ids : Bytes → Result ℕ
ids name = ok 1

abbrev file : List (Bytes × List Bytes)
file = (codes "ann", codes "ann@a.b" ∷ []) ∷ []

abbrev domains : List Bytes
domains = codes "a.b" ∷ []

abbrev to_ann : Address → Option Entry
to_ann a = some (record { kind = local; mailbox = some 1; address = none })

abbrev tables : Tables
tables = record {
  mailboxes = [];
  last_id = 1;
  mails = record { uuid = 7; date = 0; from = codes "bob@c.d"; size = 2; offset = 0 } ∷ [];
  entries = record { mailbox = 1; mail = 7 } ∷ [];
  queue = [];
}

abbrev no_files : ℕ → Option Bytes
no_files id = none

abbrev count_up : ℕ → ℕ
count_up n = n + 10

abbrev store : Store
store = record {
  db = record { tables = tables; faults = [] };
  blobs = record { files = no_files; ids = count_up; drawn = 0; faults = [] };
}

abbrev post : Post
post = record { store = store; worker = record { alarm = none; busy = false; started = 0 } }

abbrev envelope : Envelope
envelope = record { helo = []; addr = []; date = 3; from = some bob; to = ann ∷ [] }

deliver-Delivered_example :
    Delivered to_ann envelope
      (of_bytes (codes "hi"))
      store
      (deliver to_ann envelope (of_bytes (codes "hi")) post).1.store
unfolding deliver Blobs.write add_mail add_entries
deliver-Delivered_example = deliver-Delivered to_ann envelope (of_bytes (codes "hi")) post refl

abbrev no_bcrypt : Bcrypt
no_bcrypt = record { generate = ok; matches = λ hash pass. false }

abbrev show_date : ℕ → Bytes
show_date date = []

abbrev pub config : Config
config = record {
  hostname = codes "mx";
  extensions = [];
  max_size = 5;
  lookup = to_ann;
  normalizer = plain_names;
  bcrypt = no_bcrypt;
  from_hooks = [];
  data_hooks = [];
  tls_config = false;
  format_date = show_date;
}

-- a client that greets, and a call of the connection that fails
abbrev pub session : Session
session = record {
  conn = record {
    reader = record { tokens = codes "HELO c" ∷ codes "NOOP" ∷ []; fault = none };
    out = [];
    is_tls = false;
    remote_addr = [];
    faults = [];
  };
  state = s_init;
  envelope = record { helo = []; addr = []; date = 0; from = none; to = [] };
  headers = [];
  mailbox = none;
  post = post;
  cache = record { memory_limit = 2; faults = [] };
  now = 5;
}

handle-Inv_example : (s' : Session) × (handle config session ≡ some s') × Inv config 2 s'
handle-Inv_example = handle-Inv config session refl refl

fresh : Inv config 2 session
fresh = record {
  sender = λ p. cc;
  recipients = tt;
  room = omega arith;
  some_recipient = λ p. cc;
  lines = omega arith;
}

abbrev helo_command : Command
helo_command = record { head = codes "HELO"; tail = codes "c" }

handler-Inv_example : Inv config 2 (handler config helo_verb helo_command session).1
handler-Inv_example = handler-Inv config 2 helo_verb helo_command session fresh

clean-referenced_example :
    (by_uuid 7 (clean store).1.db.tables ≡ by_uuid 7 store.db.tables)
    × ((clean store).1.blobs.files 7 ≡ none)
clean-referenced_example = clean-referenced store 7 refl

-- the same with a mail 8 that nothing refers to
abbrev littered : Store
littered = record store {
  db = record {
    tables = record tables {
      mails =
          tables.mails
          ++ (record { uuid = 8; date = 0; from = codes "bob@c.d"; size = 2; offset = 0 } ∷ []);
    };
    faults = [];
  };
}

clean-removes_example :
    All (λ (m : MailRow). is_referenced tables m.uuid ≡ true) (clean littered).1.db.tables.mails
    × ((clean littered).1.blobs.files 8 ≡ none)
unfolding select_orphans
clean-removes_example = clean-removes littered 8 refl refl refl

abbrev show_id : ℕ → Bytes
show_id id = codes "id"

abbrev pop3_config : Session.Config
pop3_config = record { bcrypt = no_bcrypt; tls_config = false; show_id = show_id }

abbrev unlocked : ℕ → Bool
unlocked key = false

-- two messages, of which the second is marked
abbrev pop3_session : Session.Session
pop3_session = record {
  conn = session.conn;
  state = Session.s_transaction;
  name = codes "ann";
  mailbox = record {
    id = 1;
    marks = 1 ∷ [];
    entries = record { mail_id = 7; size = 2 } ∷ record { mail_id = 9; size = 3 } ∷ [];
    size = 5;
    size_del = 3;
  };
  store = store;
  locks = record { entries = unlocked };
}

abbrev delete_first : Session.Command
delete_first = record { head = codes "DELE"; tail = codes "1" }

marks-Tallied_example :
    Tallied (user delete_first pop3_session).1
    × Tallied (pass pop3_config delete_first pop3_session).1
    × Tallied (dele delete_first pop3_session).1
    × Tallied (rset delete_first pop3_session).1
marks-Tallied_example = marks-Tallied pop3_config delete_first pop3_session (record {
  in_range = (omega arith, tt);
  distinct = (refl, tt);
  size_is = refl;
  none_before = λ p. cc;
})
