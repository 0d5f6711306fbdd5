-- ===== src/Storage/Cleaner/Faultless.antt =====
-- Clean (internal/storage/cleaner.go) with a database that does not fail.
use briefmail.Base.{ℕ, ◌≡◌, refl, List, []}
use briefmail.Outcome.{Result, ok, err}
use briefmail.Storage.Cleaner.{Store, clean}
use briefmail.Storage.Db.{Db, delete_orphans}
use briefmail.Storage.Db.Transact.{transact-works}

orphans-works : (d : Db) → d.faults ≡ [] → (delete_orphans d).1.faults ≡ []
unfolding delete_orphans
orphans-works d w = transact-works _ d w

pub clean-works : (x : Store) → x.db.faults ≡ [] → (clean x).1.db.faults ≡ []
unfolding clean
clean-works x w = by_result (delete_orphans x.db).0 refl
  where
    by_result : (r : Result (List ℕ)) → (delete_orphans x.db).0 ≡ r → (clean x).1.db.faults ≡ []
    by_result (ok ms) p = rw (clean, p) (orphans-works x.db w)
    by_result (err e) p = rw (clean, p) (orphans-works x.db w)
