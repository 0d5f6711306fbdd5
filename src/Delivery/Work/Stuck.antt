-- ===== src/Delivery/Work/Stuck.antt =====
-- `work` of internal/delivery/queue.go after an error of `next`.
use briefmail.Base.{ℕ, ◌≤◌, false, arith, ◌≡◌, ◌≢◌, refl, sym, ◌∙◌, [], ◌∷◌}
use briefmail.Outcome.{Error, err}
use briefmail.Delivery.Queue.{QueueConfig, next}
use briefmail.Delivery.Work.{
  at_lock, look, go_on, lock_free, delivering, stuck, Office, Step, queues, wakes, rings, looks,
  delivers, elsewhere, Reach, here, further,
}
use briefmail.Delivery.Work.OneLoop.{the_only}
use briefmail.Delivery.Queue.Again.{due}
use briefmail.Storage.Db.{QueueElement}

-- a loop that waits for its own lock, as long as there is no other
stays-stuck :
    {W : Type 0} (cfg : QueueConfig W) (start o : Office W)
    → start.loops ≡ stuck ∷ []
    → Reach cfg start o
    → (o.loops ≡ stuck ∷ [])
      × (o.worker ≡ start.worker)
      × (o.net ≡ start.net)
      × (start.owed ≤ o.owed)
stays-stuck cfg start o l here = (l, refl, refl, omega arith)
stays-stuck {W = W} cfg start o l (further {o = o'} before step) =
    let (loops, worker, net, owed) = stays-stuck cfg start o' l before in
    let (loops', worker', net', owed') = still_stuck loops step in
    (loops', worker' ∙ worker, net' ∙ net, omega arith)
  where
    still_stuck :
        {o o' : Office W}
        → o.loops ≡ stuck ∷ []
        → Step cfg o o'
        → (o'.loops ≡ stuck ∷ []) × (o'.worker ≡ o.worker) × (o'.net ≡ o.net) × (o.owed ≤ o'.owed)
    still_stuck l (queues id to added) = (l, refl, refl, omega arith)
    still_stuck l (elsewhere store q f) = (l, refl, refl, omega arith)
    still_stuck l (wakes k due free) = cc (rw l at free)
    still_stuck l (rings d set free) = cc (rw l at free)
    still_stuck l (looks now xs ys at free) = cc (rw l at free)
    still_stuck l (delivers now elem xs ys at) =
        absurd (other_phase (the_only stuck (delivering elem) xs ys (sym at ∙ l)).2)
      where
        other_phase : {e : QueueElement} → delivering e ≢ stuck
        other_phase p = cc

-- An error of `next`, of the database for instance, stops the queue for good: the loop then waits for
-- the lock that it holds itself. No later step calls WakeUp, delivers anything or sets the timer,
-- whatever is queued meanwhile; the calls of WakeUp that Deliver owes only become more.
pub looks-stuck :
    {W : Type 0} (cfg : QueueConfig W) (start o : Office W) (now : ℕ) (e : Error)
    → start.loops ≡ at_lock ∷ []
    → (next cfg.normalizer now start.store).0 ≡ err e
    → Reach cfg
        (record start {
          store = (next cfg.normalizer now start.store).1;
          worker = (look (next cfg.normalizer now start.store).0 start.worker).0;
          loops = go_on (look (next cfg.normalizer now start.store).0 start.worker).1 [];
        })
        o
    → (lock_free o ≡ false)
      × (o.worker ≡ start.worker)
      × (o.net ≡ start.net)
      × (start.owed ≤ o.owed)
unfolding look
looks-stuck {W = W} cfg start o now e one failed after =
    let (loops, worker, net, owed) = stays-stuck cfg failed_look o at_stuck after in
    (rw loops refl, worker ∙ same_worker, net, owed)
  where
    failed_look : Office W
    failed_look = record start {
      store = (next cfg.normalizer now start.store).1;
      worker = (look (next cfg.normalizer now start.store).0 start.worker).0;
      loops = go_on (look (next cfg.normalizer now start.store).0 start.worker).1 [];
    }

    at_stuck : failed_look.loops ≡ stuck ∷ []
    at_stuck = rw failed refl

    same_worker : failed_look.worker ≡ start.worker
    same_worker = rw failed refl
