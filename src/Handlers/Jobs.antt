-- ===== src/Handlers/Jobs.antt =====
-- services/api/internal/handlers/job_handler.go
pub mod Bulk
pub mod Permissions
pub mod Frame
use rd_testing_project.Base.{
  ℕ, zero, suc, ◌+◌, ◌*◌, String, Bool, true, false, not, Option, none, some, List, [], ◌∷◌, ◌==◌,
  ◌!=◌, ◌&&◌, ◌||◌, nat_eq, string_eq, if◌then◌else◌, length, any, ℤ, pos, leb_ℤ, int_scale,
}
use rd_testing_project.Models.{
  Uuid, Time, Command, CommandResult, Dict, Value, text, number, second, minute, add_duration,
}
use rd_testing_project.Store.{MemoryStore, Error, Result, ok, err}
use rd_testing_project.Store.Devices.{get_device}
use rd_testing_project.Store.Commands.{
  create_command, get_command, get_command_result, save_command_result,
}
use rd_testing_project.Http.{
  Env, Request, Claims, Decoded, Handler, Step, ◌>>=◌, ◌>>◌, respond_json, respond_error, require,
  check, fetch, peek, perform, attempt, audit, authenticated, status_ok, status_accepted,
  bad_request, forbidden, not_found, internal_error,
}
use rd_testing_project.Http.Bodies.{Body, strings, command_created, command, bulk}

pub record CreateCommandRequest : Type 0 where
  pub command_type : String
  pub parameters : Option Dict
  pub expires_in_sec : ℤ

pub record BulkCommandRequest : Type 0 where
  pub device_ids : List Uuid
  pub command_type : String
  pub parameters : Option Dict
  pub confirmation : String

pub record AgentCommandResultRequest : Type 0 where
  pub exit_code : ℤ
  pub stdout_output : String
  pub stderr_output : String
  pub execution_duration_ms : ℤ

-- The permission that a command type needs.
unfoldable pub required_perm : String → String
required_perm command_type =
    if command_type == "RUN_SCRIPT" then "device.terminal" else "device.restart"

abbrev pub grants : String → List String → Bool
grants perm = any (λ p. p == perm || p == "*")

unfoldable pub lifetime : ℤ → ℤ
lifetime sec = int_scale (if leb_ℤ sec (pos 0) then pos 300 else sec) second

abbrev result_of : Result CommandResult → Option CommandResult
result_of (ok res) = some res
result_of (err e) = none

-- The command that CreateCommand stores.
unfoldable pub new_command : Env → Claims → Uuid → CreateCommandRequest → Command
unfolding lifetime
new_command env claims device_id req = record {
  id = env.new_id 0;
  organization_id = claims.organization_id;
  device_id = device_id;
  issued_by_user_id = claims.user_id;
  command_type = req.command_type;
  parameters = req.parameters;
  status = "QUEUED";
  nonce = env.hex_encode (env.random 0 16).value;
  expires_at = add_duration (env.now 0) (lifetime req.expires_in_sec);
  created_at = env.now 1;
}

-- The result that ReportResult stores.
unfoldable pub new_result : Env → Uuid → AgentCommandResultRequest → CommandResult
new_result env command_id req = record {
  command_id = command_id;
  exit_code = req.exit_code;
  stdout_output = req.stdout_output;
  stderr_output = req.stderr_output;
  execution_duration_ms = req.execution_duration_ms;
  completed_at = env.now 0;
}

-- The command of round `i` of the loop over the devices.
unfoldable pub bulk_command : Env → Claims → BulkCommandRequest → ℕ → Uuid → Command
bulk_command env claims req i device_id = record {
  id = env.new_id i;
  organization_id = claims.organization_id;
  device_id = device_id;
  issued_by_user_id = claims.user_id;
  command_type = req.command_type;
  parameters = req.parameters;
  status = "QUEUED";
  nonce = env.hex_encode (env.random i 16).value;
  expires_at = env.now (i + i) + 10 * minute;
  created_at = env.now (i + i + 1);
}

-- The loop from round `i` on: the ids queued and the store.
unfoldable pub queue_all :
    Env → Claims → BulkCommandRequest → ℕ → List Uuid → MemoryStore → List Uuid × MemoryStore
unfolding bulk_command
queue_all env claims req i [] m = ([], m)
queue_all env claims req i (device_id ∷ rest) m =
    let (ids, m') =
      queue_all env claims req (suc i) rest
        (elim (create_command (bulk_command env claims req i device_id) m) [
          | ok m' ↦ m'
          | err e ↦ m
        ]) in
    (env.new_id i ∷ ids, m')

module _ (env : Env) (r : Request) where
  unfoldable pub create_command_handler : Decoded CreateCommandRequest → Handler
  unfolding required_perm new_command
  create_command_handler body = do
    claims ← authenticated r
    device_id ←
        require (env.parse_uuid (r.path_value "deviceId")) bad_request "Invalid device ID format"
    dev ←
        fetch (get_device claims.organization_id device_id)
          (λ _. respond_error not_found "Device not found in tenant organization")
    check (not (body.failed || body.value.command_type == "")) bad_request
        "Invalid JSON payload or missing command_type"
    let req = body.value
    check (grants (required_perm req.command_type) claims.permissions) forbidden
        "Insufficient permissions to execute command type"
    perform (create_command (new_command env claims device_id req)) internal_error
        "Failed to queue command job"
    audit r (env.now 2) claims.organization_id (some claims.user_id) "command.queued" "command"
        (env.uuid_text (env.new_id 0)) "SUCCESS"
        (some (
          ("device_id", text (env.uuid_text device_id))
          ∷ ("hostname", text dev.hostname)
          ∷ ("command_type", text req.command_type)
          ∷ []))
    respond_json status_accepted (
        command_created (record {
          command_id = env.new_id 0;
          device_id = device_id;
          status = "QUEUED";
          nonce = (new_command env claims device_id req).nonce;
          expires_at = (new_command env claims device_id req).expires_at;
        }))

  unfoldable pub get_command_handler : Handler
  get_command_handler = do
    claims ← authenticated r
    command_id ←
        require (env.parse_uuid (r.path_value "commandId")) bad_request "Invalid command ID format"
    cmd ←
        fetch (get_command claims.organization_id command_id)
          (λ _. respond_error not_found "Command job not found")
    res ← peek (get_command_result command_id)
    respond_json status_ok (command cmd (result_of res))

  unfoldable pub create_bulk_command : Decoded BulkCommandRequest → Handler
  unfolding queue_all
  create_bulk_command body = do
    claims ← authenticated r
    check (not (body.failed || length body.value.device_ids == 0)) bad_request
        "Invalid JSON payload or empty device list"
    let req = body.value
    check (req.confirmation == "CONFIRM_BULK_ACTION") bad_request
        "Bulk disruptive execution requires explicit confirmation string 'CONFIRM_BULK_ACTION'"
    let n = length req.device_ids
    queued ← (λ k m. let (ids, m') = queue_all env claims req 0 req.device_ids m in k ids m')
    audit r (env.now (n + n)) claims.organization_id (some claims.user_id) "bulk.command.queued"
        "bulk_command" (env.uuid_text (env.new_id n)) "SUCCESS"
        (some (("devices_targeted", number (pos n)) ∷ ("command_type", text req.command_type) ∷ []))
    respond_json status_accepted (
        bulk
          (record { total_queued = length queued; command_ids = queued; status = "BATCH_QUEUED" }))

  unfoldable pub report_result : Decoded AgentCommandResultRequest → Handler
  unfolding new_result
  report_result body = do
    command_id ←
        require (env.parse_uuid (r.path_value "commandId")) bad_request "Invalid command ID format"
    check (not body.failed) bad_request "Invalid JSON payload"
    perform (save_command_result (new_result env command_id body.value)) internal_error
        "Failed to save command result"
    respond_json status_ok (strings (("message", "Command result recorded") ∷ []))
