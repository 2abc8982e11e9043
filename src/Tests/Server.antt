-- ===== src/Tests/Server.antt =====
-- The routes of the API server and its configuration at concrete inputs.
use rd_testing_project.Base.{
  ◌≡◌, ◌≤◌, refl, String, true, Option, none, some, [], ◌==◌, string_eq, pos, if◌then◌else◌,
}
use rd_testing_project.Http.{Decoded}
use rd_testing_project.Postgres.{Database}
use rd_testing_project.Server.{Incoming}
use rd_testing_project.Server.Routes.{Payload}
use rd_testing_project.Server.Access.{Entry, serve-Entry}
use rd_testing_project.Server.Config.{Config, load}
use rd_testing_project.Server.Startup.{tables as on_database, choose_store, start, start_production}
use rd_testing_project.Tests.Fixtures.{env, request, fleet}
use rd_testing_project.Tests.Auth.{crypto}
use rd_testing_project.Tests.Tables.{tables as rows}
use rd_testing_project.Tests.Updates.{signer, keys}

-- A body that does not parse.
abbrev pub unread {ℓ} : {A : Type ℓ} → A → Decoded A
unread a = record { value = a; failed = true }

abbrev pub nothing : Payload
nothing = record {
  login = unread (record { email = ""; password = "" });
  mfa = unread (record { mfa_token = ""; code = "" });
  refresh_token = unread (record { refresh_token = "" });
  invitation = unread (record {
    target_group_id = none;
    expires_in_hours = pos 0;
    max_uses = pos 0;
    requires_approval = none;
  });
  handshake_body = unread (record {
    enrollment_token = "";
    hostname = "";
    os_name = "";
    os_version = "";
    os_architecture = "";
    agent_version = "";
    public_key_hex = "";
  });
  consent = unread (record { decision = ""; reason = "" });
  session = unread (record { mode = ""; require_consent = none });
  termination = unread (record { reason = "" });
  result = unread (record {
    exit_code = pos 0;
    stdout_output = "";
    stderr_output = "";
    execution_duration_ms = pos 0;
  });
  command = unread (record { command_type = ""; parameters = none; expires_in_sec = pos 0 });
  bulk_command =
      unread (record { device_ids = []; command_type = ""; parameters = none; confirmation = "" });
  sample = unread (record {
    device_id = 0;
    organization_id = 0;
    cpu_percent = 0;
    ram_used_bytes = pos 0;
    ram_total_bytes = pos 0;
    ram_percent = 0;
    disk_used_bytes = pos 0;
    disk_total_bytes = pos 0;
    disk_percent = 0;
    network_rx_bytes_sec = pos 0;
    network_tx_bytes_sec = pos 0;
  });
  group =
      unread
        (record { name = ""; description = none; parent_group_id = none; policy_overrides = none });
  group_update = unread (record { name = ""; description = none; policy_overrides = none });
  members = unread (record { device_ids = [] });
  software = unread (record {
    name = "";
    version = "";
    installer_url = "";
    sha256_hash = "";
    silent_install_args = "";
  });
  deployment = unread (record { device_ids = [] });
  signature = unread (record { payload_hex = ""; signature_base64 = ""; public_key_hex = "" });
}

abbrev pub incoming : Option String → Incoming
incoming pattern = record {
  method = "POST";
  matched = pattern;
  request = request none (λ _. "laptop");
  payload = nothing;
  env = env;
  now = 1000;
}

serve-Entry_example :
    Entry crypto "secret" signer keys (incoming (some "POST /api/v1/auth/login")) fleet
serve-Entry_example =
    serve-Entry crypto "secret" signer keys (incoming (some "POST /api/v1/auth/login")) fleet

abbrev production : String → String
production key =
    if key == "ENVIRONMENT"
    then "production"
    else if key == "JWT_SECRET"
    then "a secret of thirty-two bytes or more"
    else if key == "DATABASE_URL"
    then "postgres://db"
    else if key == "CORS_ALLOWED_ORIGINS"
    then "https://console.test"
    else ""

abbrev loaded : Config
loaded = record {
  port = "8080";
  database_url = "postgres://db";
  redis_url = "redis://localhost:6379/0";
  jwt_secret = "a secret of thirty-two bytes or more";
  environment = "production";
  allowed_origins = "https://console.test";
}

load-loaded : load production (λ _. 36) ≡ some loaded
unfolding load
load-loaded = refl

start_production_example :
    ((db : Database) × (some rows ≡ some db) × (on_database rows ≡ on_database db))
    × (loaded.database_url ≡ production "DATABASE_URL")
    × (loaded.jwt_secret ≡ production "JWT_SECRET")
    × (loaded.allowed_origins ≡ production "CORS_ALLOWED_ORIGINS")
    × (32 ≤ 36)
unfolding load choose_store start
start_production_example =
    start_production production (λ _. 36) (some rows) (λ _. 1000) loaded (on_database rows) refl
      refl
