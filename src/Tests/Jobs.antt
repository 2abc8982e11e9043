-- ===== src/Tests/Jobs.antt =====
-- Commands on the fleet.
use rd_testing_project.Base.{
  ◌≡◌, refl, none, some, [], ◌∷◌, arith, nat_eq, get_elem?, string_eq, String, true, pos,
}
use rd_testing_project.Base.Maps.{get}
use rd_testing_project.Models.{Uuid, Device}
use rd_testing_project.Store.Devices.{get_device}
use rd_testing_project.Store.Commands.{create_command}
use rd_testing_project.Http.{Request, Claims, Decoded, audit, status_accepted}
use rd_testing_project.Http.Bodies.{bulk, BulkCommandResponse}
use rd_testing_project.Handlers.Jobs.{
  CreateCommandRequest, BulkCommandRequest, AgentCommandResultRequest, create_command_handler,
  create_bulk_command, new_command, bulk_command, grants, required_perm,
}
use rd_testing_project.Handlers.Jobs.Permissions.{create_command_guarded}
use rd_testing_project.Handlers.Jobs.Bulk.{Fresh, create_bulk_command_queues}
use rd_testing_project.Tests.Fixtures.{env, request, claims_of, fleet, decoded}

abbrev support : Claims
support = claims_of 1 ("device.restart" ∷ [])

abbrev caller : Request
caller = request (some support) (λ _. "desktop")

abbrev agent : Request
agent = request none (λ _. "command")

abbrev job : String → Decoded CreateCommandRequest
job command_type =
    decoded (record { command_type = command_type; parameters = none; expires_in_sec = pos 0 })

abbrev batch : String → Decoded BulkCommandRequest
batch confirmation = decoded (record {
  device_ids = 12 ∷ 13 ∷ [];
  command_type = "RUN_SCRIPT";
  parameters = none;
  confirmation = confirmation;
})

abbrev failure : Decoded AgentCommandResultRequest
failure = decoded (record {
  exit_code = pos 1;
  stdout_output = "";
  stderr_output = "denied";
  execution_duration_ms = pos 5;
})

create_command_guarded_example :
    (claims : Claims) × (id : Uuid) × (dev : Device) × (caller.claims ≡ some claims)
    × (env.parse_uuid (caller.path_value "deviceId") ≡ some id)
    × (get id fleet.devices ≡ some dev)
    × (dev.organization_id ≡ claims.organization_id)
    × (grants (required_perm "REBOOT") claims.permissions ≡ true)
    × (get 500 (create_command_handler env caller (job "REBOOT") fleet).1.commands
        ≡ some (new_command env claims id (job "REBOOT").value))
unfolding create_command_handler create_command get_device get audit
create_command_guarded_example = create_command_guarded env caller fleet (job "REBOOT") refl

env-Fresh : Fresh env.new_id
env-Fresh i j e = omega arith

-- The caller has no device.terminal, and device 13 is another organization's.
create_bulk_command_queues_example :
    (answer : BulkCommandResponse) × ((create_bulk_command env caller
        (batch "CONFIRM_BULK_ACTION")
        fleet).0.status
      ≡ status_accepted)
    × ((create_bulk_command env caller (batch "CONFIRM_BULK_ACTION") fleet).0.body ≡ bulk answer)
    × (answer.total_queued ≡ 2)
    × (get_elem? answer.command_ids 1 ≡ some 501)
    × (get 501 (create_bulk_command env caller (batch "CONFIRM_BULK_ACTION") fleet).1.commands
        ≡ some (bulk_command env support (batch "CONFIRM_BULK_ACTION").value 1 13))
create_bulk_command_queues_example =
    create_bulk_command_queues env caller fleet (batch "CONFIRM_BULK_ACTION") support 1 13 env-Fresh
      refl refl refl refl
