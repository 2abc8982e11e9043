-- ===== src/Store/Commands.antt =====
-- store.go: commands and their results.
use rd_testing_project.Base.{String, List, ◌&&◌, ◌==◌, nat_eq, keep, ℤ, pos, negsuc, zero, suc}
use rd_testing_project.Base.Maps.{get, put, update, values}
use rd_testing_project.Models.{Uuid, Command, CommandResult}
use rd_testing_project.Store.{MemoryStore, Result, ok, or_not_found, of_tenant, ◌>>=◌}

unfoldable pub create_command : Command → MemoryStore → Result MemoryStore
create_command cmd m = ok (record m { commands = put cmd.id cmd m.commands })

unfoldable pub get_command : Uuid → Uuid → MemoryStore → Result Command
get_command org_id command_id m =
    of_tenant (λ c. c.organization_id) org_id (get command_id m.commands)

unfoldable pub update_command_status : Uuid → Uuid → String → MemoryStore → Result MemoryStore
update_command_status org_id command_id status m = do
  _ ← of_tenant (λ c. c.organization_id) org_id (get command_id m.commands)
  ok (record m { commands = update command_id (λ c. record c { status = status }) m.commands })

unfoldable pub list_device_commands : Uuid → Uuid → MemoryStore → Result (List Command)
list_device_commands org_id device_id m =
    ok (keep (λ c. c.organization_id == org_id && c.device_id == device_id) (values m.commands))

-- The status that an exit code stands for.
abbrev pub status_of_exit : ℤ → String
status_of_exit (pos zero) = "SUCCESS"
status_of_exit (pos (suc n)) = "FAILED"
status_of_exit (negsuc n) = "FAILED"

unfoldable pub save_command_result : CommandResult → MemoryStore → Result MemoryStore
save_command_result res m = ok (record m {
  command_results = put res.command_id res m.command_results;
  commands =
      update res.command_id (λ c. record c { status = status_of_exit res.exit_code }) m.commands;
})

unfoldable pub get_command_result : Uuid → MemoryStore → Result CommandResult
get_command_result command_id m = or_not_found (get command_id m.command_results)
