-- ===== src/Storage/Cleaner.antt =====
-- internal/storage/cleaner.go
pub mod Orphans
pub mod Removal
pub mod Faultless
use briefmail.Base.{List, [], ◌∷◌, ℕ}
use briefmail.Outcome.{Error, Result, ok, err, Exec, Action, pure, ◌>>=◌, ◌>>◌}
use briefmail.Storage.Blobs
use briefmail.Storage.Blobs.{Blobs}
use briefmail.Storage.Db.{Db, delete_orphans}

-- The database and the blobs, which the components share.
pub record Store : Type 0 where
  pub db : Db
  pub blobs : Blobs

abbrev pub on_db : {A : Type 0} → Exec Db A → Exec Store A
on_db m s = let r = m s.db in (r.0, record s { db = r.1 })

abbrev pub on_blobs : {A : Type 0} → Exec Blobs A → Exec Store A
on_blobs m s = let r = m s.blobs in (r.0, record s { blobs = r.1 })

-- the loop of Clean, whose calls of Delete may fail unseen
unfoldable pub delete_blobs : List ℕ → Blobs → Blobs
unfolding Blobs.delete
delete_blobs [] b = b
delete_blobs (m ∷ ms) b = delete_blobs ms (Blobs.delete m b).1

-- (*Cleaner).Clean
unfoldable pub clean : Action Store
unfolding delete_orphans delete_blobs
clean = do
  mails ← on_db delete_orphans
  λ s. (ok tt, record s { blobs = delete_blobs mails s.blobs })
