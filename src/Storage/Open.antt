-- ===== src/Storage/Open.antt =====
-- The constructors of internal/storage, and what a process finds of the one before it.
use briefmail.Base.{
  ℕ, ◌≡◌, refl, Option, none, some, [], Bytes, codes, equal, equal_refl, if◌then◌else◌,
}
use briefmail.Outcome.{
  Error, Result, ok, err, Exec, Action, pure, ◌>>=◌, ◌>>◌, Faults, head_fault, tail_faults,
}
use briefmail.Addressbook.{assign}
use briefmail.Settings.{Viper, defaults, cache_memory_limit}
use briefmail.Storage.Blobs.{Blobs}
use briefmail.Storage.Cache.{Cache}
use briefmail.Storage.Cleaner.{Store}
use briefmail.Storage.Db.{Db}
use briefmail.Storage.Tables.{Tables}

-- What processes leave for the next: the tables in a database file, where they were created, and
-- the files of a folder by id. `faults` has one place for each call of sql and os below.
pub record Disk : Type 0 where
  pub databases : Bytes → Option Tables
  pub folders : Bytes → ℕ → Option Bytes
  pub faults : Faults

abbrev status : Option Error → Result (Unit {0})
status none = ok tt
status (some e) = err e

abbrev call : Action Disk
call d = (status (head_fault d.faults), record d { faults = tail_faults d.faults })

-- `create table if not exists` of each table
abbrev if_not_exists : Option Tables → Tables
if_not_exists none = record { mailboxes = []; last_id = 0; mails = []; entries = []; queue = [] }
if_not_exists (some t) = t

-- the statements of NewDB
abbrev create_tables : Bytes → Exec Disk Tables
create_tables name d =
    let t = if_not_exists (d.databases name) in
    (ok t, record d { databases = assign d.databases name t })

-- NewDB: sql.Open, and the Exec of the statements. `later` are the faults of the database.
unfoldable pub new_db : Viper → Faults → Exec Disk Db
new_db v later = do
  call
  call
  t ← create_tables (v.get_string defaults (codes "storage.database.filename"))
  pure (record { tables = t; faults = later })

-- NewBlobs: os.MkdirAll keeps a folder that exists, with its files.
unfoldable pub new_blobs : Viper → (ℕ → ℕ) → Faults → Exec Disk Blobs
new_blobs v ids later = do
  call
  λ d. (
    ok (record {
      files = d.folders (v.get_string defaults (codes "storage.blobs.foldername"));
      ids = ids;
      drawn = 0;
      faults = later;
    }),
    d,
  )

-- NewInMemoryBlobs
abbrev pub new_in_memory_blobs : (ℕ → ℕ) → Faults → Result Blobs
new_in_memory_blobs ids later =
    ok (record { files = λ id. none; ids = ids; drawn = 0; faults = later })

-- NewCache, where `get_int64` is viper.GetInt64 with the default. The names of the files in the
-- folder are new, so what it holds does not matter; a limit below 0 acts as 0.
unfoldable pub new_cache : (ℕ → Bytes → ℕ) → Faults → Exec Disk Cache
new_cache get_int64 later = do
  call
  pure (record {
    memory_limit = get_int64 cache_memory_limit (codes "storage.cache.memoryLimit");
    faults = later;
  })

-- NewMemoryCache
abbrev pub new_memory_cache : Faults → Result Cache
new_memory_cache later = ok (record { memory_limit = 0; faults = later })

-- NewCleaner
abbrev pub new_cleaner : Db → Blobs → Store
new_cleaner db blobs = record { db = db; blobs = blobs }

-- what the process with the store has on the disk whenever it stops
abbrev pub left : Viper → Store → Disk → Disk
left v s d = record d {
  databases =
      assign d.databases (v.get_string defaults (codes "storage.database.filename")) s.db.tables;
  folders = λ name.
      if equal (v.get_string defaults (codes "storage.blobs.foldername")) name
      then s.blobs.files
      else d.folders name;
}

-- the store of a process
abbrev pub open_store : Viper → (ℕ → ℕ) → Exec Disk Store
open_store v ids = do db ← new_db v []; blobs ← new_blobs v ids []; pure (new_cleaner db blobs)

-- A store with the tables and the files of another, before any call.
abbrev pub reopened : (ℕ → ℕ) → Store → Store
reopened ids s = record {
  db = record { tables = s.db.tables; faults = [] };
  blobs = record { files = s.blobs.files; ids = ids; drawn = 0; faults = [] };
}

-- A process that starts with the same settings, and with no failure, has every row and every file of
-- the one before it.
pub open_store-left :
    (v : Viper) (ids : ℕ → ℕ) (s : Store) (d : Disk)
    → d.faults ≡ []
    → (open_store v ids (left v s d)).0 ≡ ok (reopened ids s)
unfolding new_db new_blobs
open_store-left v ids s d h =
    rw
      (
        h,
        equal_refl (v.get_string defaults (codes "storage.database.filename")),
        equal_refl (v.get_string defaults (codes "storage.blobs.foldername")),
      )
      refl
