-- ===== src/Server/Startup.antt =====
-- services/api/cmd/server/main.go: the configuration and the store that the API server starts with.
use rd_testing_project.Base.{
  ℕ, ◌≤◌, ◌≡◌, String, Option, none, some, ◌==◌, string_eq, if◌then◌else◌, arith, text_eq_iff, inl,
  inr, Option-cases,
}
use rd_testing_project.Models.{Time}
use rd_testing_project.Store.{MemoryStore}
use rd_testing_project.Store.Seed.{new_memory_store}
use rd_testing_project.Postgres.{Database}
use rd_testing_project.Server.Config.{Config, load, load_production}

pub data Backend : Type 0 where
  tables : Database → Backend
  memory : MemoryStore → Backend

-- The database that NewPostgresStore connects to; `none` where it fails, and log.Fatalf ends main.
abbrev pub on_tables : Option Database → Option Backend
on_tables none = none
on_tables (some db) = some (tables db)

unfoldable pub choose_store : Config → Option Database → (ℕ → Time) → Option Backend
choose_store cfg connected now =
    if cfg.environment == "production"
    then on_tables connected
    else some (memory (new_memory_store now))

abbrev with_store : Option Database → (ℕ → Time) → Option Config → Option (Config × Backend)
with_store connected now none = none
with_store connected now (some cfg) = elim (choose_store cfg connected now) [
  | none ↦ none
  | some backend ↦ some (cfg, backend)
]

-- What main starts with; `none` where it ends before it listens.
unfoldable pub start :
    (String → String) → (String → ℕ) → Option Database → (ℕ → Time) → Option (Config × Backend)
unfolding load choose_store
start getenv byte_length connected now = with_store connected now (load getenv byte_length)

started :
    (loaded : Option Config) (connected : Option Database) (now : ℕ → Time) (cfg : Config)
    (backend : Backend)
    → with_store connected now loaded ≡ some (cfg, backend)
    → (loaded ≡ some cfg) × (choose_store cfg connected now ≡ some backend)
started none connected now cfg backend h = absurd (ground arith)
started (some loaded) connected now cfg backend h =
    elim (Option-cases (choose_store loaded connected now)) [
      | inl e ↦ absurd (ground arith)
      | inr (b, e) ↦ (ground arith, ground arith)
    ]

-- A server that starts for production serves from the database that it connected to, never from
-- the demo data, with a database URL, a token secret of at least 32 bytes and allowed origins that
-- the environment gives.
pub start_production :
    (getenv : String → String) (byte_length : String → ℕ) (connected : Option Database)
    (now : ℕ → Time) (cfg : Config) (backend : Backend)
    → start getenv byte_length connected now ≡ some (cfg, backend)
    → cfg.environment ≡ "production"
    → ((db : Database) × (connected ≡ some db) × (backend ≡ tables db))
      × (cfg.database_url ≡ getenv "DATABASE_URL")
      × (cfg.jwt_secret ≡ getenv "JWT_SECRET")
      × (cfg.allowed_origins ≡ getenv "CORS_ALLOWED_ORIGINS")
      × (32 ≤ byte_length cfg.jwt_secret)
unfolding start choose_store
start_production getenv byte_length connected now cfg backend h prod =
    let (loaded, chosen) = started (load getenv byte_length) connected now cfg backend h in
    let (url, secret, origins, _, _, long) = load_production getenv byte_length cfg loaded prod in
    elim (Option-cases connected) [
      | inl e ↦ absurd (ground (arith, text_eq_iff cfg.environment "production"))
      | inr (db, e) ↦ (
        (db, e, ground (arith, text_eq_iff cfg.environment "production")),
        url,
        secret,
        origins,
        long,
      )
    ]
