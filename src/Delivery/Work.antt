-- ===== src/Delivery/Work.antt =====
-- (*QueueWorker).work of internal/delivery/queue.go, and how it runs beside what wakes it up.
pub mod OneLoop
pub mod Waiting
pub mod Stuck
use briefmail.Base.{
  ℕ, zero, suc, ◌≡◌, Bool, true, false, ◌||◌, not, Option, none, some, List, [], ◌∷◌, ◌++◌, ltb,
  if◌then◌else◌, any,
}
use briefmail.Outcome.{Error, Result, ok, err}
use briefmail.Delivery.Queue.{QueueConfig, next, deliver_element}
use briefmail.Delivery.Worker.{Worker, wake_up, sleep}
use briefmail.Model.Address.{Address}
use briefmail.Storage.Cleaner.{Store, on_db, clean}
use briefmail.Storage.Db.{QueueElement, add_to_queue}

-- Where a run of `work` is: before q.lock.Lock(), in `do`, or behind the `continue` after an error of
-- `next`. There it still holds the lock that it then waits for.
pub data Phase : Type 0 where
  at_lock : Phase
  delivering : QueueElement → Phase
  stuck : Phase

abbrev pub is_stuck : Phase → Bool
is_stuck stuck = true
is_stuck _ = false

-- `loops` are the runs of `work`. `owed` counts the mails that AddToQueue has put into the queue
-- before the call of WakeUp that follows it.
pub record Office (W : Type 0) : Type 0 where
  pub store : Store
  pub net : W
  pub worker : Worker
  pub loops : List Phase
  pub owed : ℕ

-- `q.lock` can be taken: no loop keeps it beyond a step
abbrev pub lock_free : {W : Type 0} → Office W → Bool
lock_free o = not (any is_stuck o.loops)

-- WakeUp, with the loop that it starts
unfoldable pub woken : {W : Type 0} → Office W → Office W
unfolding wake_up
woken o = record o {
  worker = wake_up o.worker;
  loops = if not o.worker.busy then o.loops ++ (at_lock ∷ []) else o.loops;
}

-- the locked part of a round of `work`: the worker, and how the loop goes on, if it does
unfoldable pub look : Result (Option QueueElement × ℕ) → Worker → Worker × Option Phase
unfolding sleep
look (err e) w = (w, some stuck)
look (ok (some elem, d)) w = (w, some (delivering elem))
look (ok (none, d)) w =
    let w' = record w { busy = false } in (if ltb 0 d then sleep d w' else w', none)

-- the rest of a round
unfoldable pub serve : {W : Type 0} → QueueConfig W → ℕ → QueueElement → Store → W → Store × W
unfolding deliver_element clean
serve cfg now elem s w = let r = deliver_element cfg now elem s w in ((clean r.0).1, r.1)

abbrev pub go_on : Option Phase → List Phase → List Phase
go_on none rest = rest
go_on (some p) rest = p ∷ rest

-- A step of the worker, or of what it shares its state with. The `now` of a step is what time.Now
-- returns in it.
pub data Step {W : Type 0} (cfg : QueueConfig W) (o : Office W) : Office W → Type 0 where
  -- Deliver has added a mail to the queue
  queues :
      (id : ℕ) (to : List Address)
      → (on_db (add_to_queue id to) o.store).0 ≡ ok tt
      → Step cfg o (record o { store = (on_db (add_to_queue id to) o.store).1; owed = suc o.owed })
  -- its call of WakeUp
  wakes : (k : ℕ) → o.owed ≡ suc k → lock_free o ≡ true → Step cfg o (record (woken o) { owed = k })
  -- the call of WakeUp by the timer
  rings : (d : ℕ) → o.worker.alarm ≡ some d → lock_free o ≡ true → Step cfg o (woken o)
  looks :
      (now : ℕ) (xs ys : List Phase)
      → o.loops ≡ xs ++ (at_lock ∷ ys)
      → lock_free o ≡ true
      → Step cfg o (record o {
        store = (next cfg.normalizer now o.store).1;
        worker = (look (next cfg.normalizer now o.store).0 o.worker).0;
        loops = xs ++ go_on (look (next cfg.normalizer now o.store).0 o.worker).1 ys;
      })
  delivers :
      (now : ℕ) (elem : QueueElement) (xs ys : List Phase)
      → o.loops ≡ xs ++ (delivering elem ∷ ys)
      → Step cfg o (record o {
        store = (serve cfg now elem o.store o.net).0;
        net = (serve cfg now elem o.store o.net).1;
        loops = xs ++ (at_lock ∷ ys);
      })
  -- another use of the store, which leaves the queue alone
  elsewhere :
      (store : Store)
      → store.db.tables.queue ≡ o.store.db.tables.queue
      → store.db.faults ≡ o.store.db.faults
      → Step cfg o (record o { store = store })

pub data Reach {W : Type 0} (cfg : QueueConfig W) (start : Office W) : Office W → Type 0 where
  here : Reach cfg start start
  further : {o o' : Office W} → Reach cfg start o → Step cfg o o' → Reach cfg start o'
