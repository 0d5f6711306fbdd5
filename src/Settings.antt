-- ===== src/Settings.antt =====
-- The settings of github.com/spf13/viper, with the defaults that the packages set for texts in
-- their init functions.
use briefmail.Base.{
  ℕ, Option, none, some, List, [], ◌∷◌, ◌++◌, ◌≡◌, Bytes, codes, equal, if◌then◌else◌,
}

-- `viper.SetDefault` of a text
abbrev pub Defaults : Type 0
Defaults = List (Bytes × Bytes)

-- init of internal/certs/certs.go
abbrev pub source_defaults : Defaults
source_defaults = (codes "tls.source", codes "none") ∷ []

-- init of internal/certs/files.go
abbrev pub files_defaults : Defaults
files_defaults =
    (codes "tls.files.crt", codes "cert/briefmail.crt")
    ∷ (codes "tls.files.key", codes "cert/briefmail.key")
    ∷ []

-- init of internal/certs/traefik.go
abbrev pub traefik_defaults : Defaults
traefik_defaults =
    (codes "tls.traefik.acme", codes "/etc/traefik/acme.json")
    ∷ (codes "tls.traefik.domain", codes "localhost")
    ∷ []

-- init of internal/storage/db.go
abbrev pub db_defaults : Defaults
db_defaults = (codes "storage.database.filename", codes "data/db.sqlite") ∷ []

-- init of internal/storage/blobs.go
abbrev pub blobs_defaults : Defaults
blobs_defaults = (codes "storage.blobs.foldername", codes "data/blobs") ∷ []

-- init of internal/storage/cache.go, the text and the number
abbrev pub cache_defaults : Defaults
cache_defaults = (codes "storage.cache.foldername", codes "data/temp") ∷ []

abbrev pub cache_memory_limit : ℕ
cache_memory_limit = 1048576

-- init of cmd/briefmail/main.go
abbrev pub log_defaults : Defaults
log_defaults = (codes "log.level", codes "debug") ∷ []

abbrev pub defaults : Defaults
defaults =
    source_defaults
    ++ (files_defaults
        ++ (traefik_defaults
            ++ (db_defaults ++ (blobs_defaults ++ (cache_defaults ++ log_defaults)))))

-- the default of a key; one without a default is the empty text
unfoldable pub default_of : Bytes → Defaults → Bytes
unfolding equal
default_of key [] = []
default_of key ((k, v) ∷ rest) = if equal k key then v else default_of key rest

-- What a configuration file or the environment gives for a key, and viper.GetString, once the
-- defaults are set.
pub record Viper : Type 0 where
  pub configured : Bytes → Option Bytes
  pub get_string : Defaults → Bytes → Bytes

-- What is configured goes before the default.
pub record IsViper (v : Viper) : Type 0 where
  pub given :
      (ds : Defaults) (key text : Bytes) → v.configured key ≡ some text → v.get_string ds key ≡ text
  pub unset :
      (ds : Defaults) (key : Bytes)
      → v.configured key ≡ none
      → v.get_string ds key ≡ default_of key ds
