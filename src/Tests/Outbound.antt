-- ===== src/Tests/Outbound.antt =====
-- The theorems on the outbound queue at concrete inputs: a mail to bob and to a name that his server
-- does not know.
use mathlib.Core.List.{Perm}
use mathlib.Core.List.Perm
use briefmail.Base.{
  suc, Option, none, ◌<◌, ◌≤◌, ◌≡◌, refl, true, false, none, some, [], ◌∷◌, Bytes, codes, equal,
  arith, inl, if◌then◌else◌,
}
use briefmail.Outcome.{other, could_not_deliver, ok}
use briefmail.Addressbook.{Entry}
use briefmail.Delivery.Mailman.{deliver}
use briefmail.Delivery.Mailman.Errors.{deliver-err}
use briefmail.Stream.{of_bytes}
use briefmail.Storage.Blobs
use briefmail.Delivery.Client.{Network, RcptReply, accepted, refused}
use briefmail.Delivery.Queue.{
  QueueConfig, Outcomes, Job, no_outcomes, addresses_by_domain, schedule_attempt, next, settle,
  deliver_groups,
}
use briefmail.Delivery.Queue.Again.{next-settle}
use briefmail.Delivery.Queue.Groups.{IsGrouped, addresses_by_domain-IsGrouped}
use briefmail.Delivery.Queue.Schedule.{schedule_attempt-backs_off}
use briefmail.Delivery.Queue.Sorted.{listed, deliver_groups-listed}
use briefmail.Delivery.Work.{
  at_lock, lock_free, Office, queues, wakes, looks, delivers, here, further, woken, look, serve,
  go_on,
}
use briefmail.Delivery.Work.OneLoop.{OneLoop, Reach-OneLoop}
use briefmail.Delivery.Work.Stuck.{looks-stuck}
use briefmail.Delivery.Work.Waiting.{Reach-drained}
use briefmail.Dns.{mx_rr}
use briefmail.Model.Address.{string_value, Address, parse_address}
use briefmail.Model.Address.Errors.{IsNormalizer}
use briefmail.Storage.Cleaner.{Store, on_db}
use briefmail.Storage.Db.{add_mail, Mail, QueueElement, add_to_queue, peek_queue, unmarshal_to}
use briefmail.Storage.Tables.{earliest}
use briefmail.Tests.{envelope, post, ann, bob, plain_names, store, tables}

abbrev stranger : Address
stranger = record { raw = codes "x@c.d"; user = codes "x"; domain = codes "c.d" }

abbrev answer_rcpt : Bytes → RcptReply
answer_rcpt to = if equal to bob.raw then accepted else refused 550

-- a network in which every call goes through
abbrev network : Network (Unit {0})
network = record {
  resolver = record {
    fqdn = λ domain. domain;
    exchange = λ name t w. (ok (mx_rr (record { preference = 1; mx = codes "mx" }) ∷ []), w);
  };
  by_preference = λ records. records;
  dial = λ host w. (ok 1, w);
  close_conn = λ conn w. w;
  new_client = λ conn host w. (ok 2, w);
  hello = λ client name w. (ok tt, w);
  extension = λ client name w. (false, w);
  start_tls = λ client w. (ok tt, w);
  mail = λ client from w. (ok tt, w);
  rcpt = λ client to w. (answer_rcpt to, w);
  data_cmd = λ client w. (ok tt, w);
  copy = λ client r w. (ok tt, w);
  close_data = λ client w. (ok tt, w);
  quit = λ client w. w;
}

abbrev pub queue_config : QueueConfig (Unit {0})
queue_config = record {
  normalizer = plain_names;
  driver = string_value;
  network = network;
  hostname = codes "a.b";
  ranged = λ groups. groups;
}

abbrev mail : Mail
mail = record { id = 7; date = 0; from = ann; size = 2; offset = 0 }

abbrev job : Job (Unit {0})
job = record { store = store; net = tt; opened = [] }

deliver_groups-listed_example :
    Perm
      (listed
        (deliver_groups queue_config mail
          (addresses_by_domain (bob ∷ stranger ∷ []))
          no_outcomes
          job).0)
      (bob ∷ stranger ∷ [])
deliver_groups-listed_example =
    deliver_groups-listed queue_config mail (bob ∷ stranger ∷ []) job (λ groups. Perm.refl _)

addresses_by_domain-IsGrouped_example :
    IsGrouped (bob ∷ ann ∷ stranger ∷ []) (addresses_by_domain (bob ∷ ann ∷ stranger ∷ []))
addresses_by_domain-IsGrouped_example = addresses_by_domain-IsGrouped (bob ∷ ann ∷ stranger ∷ [])

schedule_attempt-backs_off_example :
    ((schedule_attempt 100 4).0 ≡ true)
    × ((schedule_attempt 100 4).1 ≤ (schedule_attempt 100 7).1)
    × (100 < (schedule_attempt 100 4).1)
unfolding schedule_attempt
schedule_attempt-backs_off_example = schedule_attempt-backs_off 100 4 7 (omega arith) refl

abbrev queued : Store
queued = record store {
  db = record {
    tables = record tables {
      queue = record { mail = 7; date = 0; attempts = 0; to = bob.raw ∷ stranger.raw ∷ [] } ∷ [];
    };
    faults = [];
  };
}

abbrev element : QueueElement
element = record { mail_id = 7; date = 0; attempts = 0; to = bob ∷ stranger ∷ [] }

abbrev one_left : Outcomes
one_left = record { delivered = bob ∷ []; undeliverable = []; pending = stranger ∷ [] }

abbrev one_refused : Outcomes
one_refused = record { delivered = bob ∷ []; undeliverable = stranger ∷ []; pending = [] }

next-settle_example :
    (next plain_names 101 (settle 100 element one_refused queued)).0 ≡ ok (some element, 0)
unfolding next peek_queue earliest unmarshal_to parse_address
next-settle_example =
    next-settle plain_names 100 101 element one_refused queued (inl ((λ p. cc), refl)) (omega arith)
      refl

abbrev at_rest : Office (Unit {0})
at_rest = record {
  store = store;
  net = tt;
  worker = record { alarm = none; busy = false; started = 0 };
  loops = [];
  owed = 0;
}

-- a mail to nobody is queued, and served as soon as the worker is woken
abbrev first_store : Store
first_store = (on_db (add_to_queue 7 []) store).1

abbrev with_mail : Office (Unit {0})
with_mail = record at_rest { store = first_store; owed = 1 }

abbrev awake : Office (Unit {0})
awake = record (woken with_mail) { owed = 0 }

plain_names-IsNormalizer : IsNormalizer plain_names
plain_names-IsNormalizer = record { user_error = λ x p. cc; domain_error = λ x p. cc }

Reach-OneLoop_example : OneLoop awake.worker.busy awake.loops
unfolding add_to_queue
Reach-OneLoop_example =
    Reach-OneLoop queue_config at_rest awake refl refl
      (further (further here (queues 7 [] refl)) (wakes 0 refl refl))

-- the database fails while a mail is queued
abbrev failing : Office (Unit {0})
failing = record awake {
  store = record awake.store { db = record awake.store.db { faults = some (other 3) ∷ [] } };
}

abbrev failed : Office (Unit {0})
failed = record failing {
  store = (next plain_names 100 failing.store).1;
  worker = (look (next plain_names 100 failing.store).0 failing.worker).0;
  loops = go_on (look (next plain_names 100 failing.store).0 failing.worker).1 [];
}

abbrev queued_late : Office (Unit {0})
queued_late = record failed {
  store = (on_db (add_to_queue 8 []) failed.store).1;
  owed = suc failed.owed;
}

looks-stuck_example :
    (lock_free queued_late ≡ false)
    × (queued_late.worker ≡ failing.worker)
    × (queued_late.net ≡ failing.net)
    × (failing.owed ≤ queued_late.owed)
unfolding add_to_queue next look woken
looks-stuck_example =
    looks-stuck queue_config failing queued_late 100 (other 3) refl refl
      (further here (queues 8 [] refl))

abbrev nothing_to_do : QueueElement
nothing_to_do = record { mail_id = 7; date = 0; attempts = 0; to = [] }

-- the worker looks, delivers, and looks again
abbrev looked : Office (Unit {0})
looked = record awake {
  store = (next plain_names 100 first_store).1;
  worker = (look (next plain_names 100 first_store).0 awake.worker).0;
  loops = go_on (look (next plain_names 100 first_store).0 awake.worker).1 [];
}

abbrev delivered : Office (Unit {0})
delivered = record looked {
  store = (serve queue_config 100 nothing_to_do looked.store looked.net).0;
  net = (serve queue_config 100 nothing_to_do looked.store looked.net).1;
  loops = at_lock ∷ [];
}

abbrev finished : Office (Unit {0})
finished = record delivered {
  store = (next plain_names 100 delivered.store).1;
  worker = (look (next plain_names 100 delivered.store).0 delivered.worker).0;
  loops = go_on (look (next plain_names 100 delivered.store).0 delivered.worker).1 [];
}

Reach-drained_example : finished.store.db.tables.queue ≡ []
unfolding add_to_queue next peek_queue look serve woken parse_address
Reach-drained_example =
    Reach-drained queue_config at_rest finished plain_names-IsNormalizer refl refl refl refl
      (further
        (further
          (further (further (further here (queues 7 [] refl)) (wakes 0 refl refl))
            (looks 100 [] [] refl refl))
          (delivers 100 nothing_to_do [] [] refl))
        (looks 100 [] [] refl refl))
      refl refl refl

abbrev to_nobody : Address → Option Entry
to_nobody a = none

deliver-err_example :
    ((deliver to_nobody envelope (of_bytes (codes "hi")) post).1.store.db.tables.queue
      ≡ post.store.db.tables.queue)
    × ((deliver to_nobody envelope (of_bytes (codes "hi")) post).1.worker ≡ post.worker)
unfolding deliver Blobs.write add_mail
deliver-err_example =
    deliver-err to_nobody envelope (of_bytes (codes "hi")) post could_not_deliver refl
