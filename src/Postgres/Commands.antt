-- ===== src/Postgres/Commands.antt =====
-- postgres_store.go: commands and their results.
use rd_testing_project.Base.{
  String, not, Option, none, some, List, ◌&&◌, ◌==◌, nat_eq, keep, is_some,
}
use rd_testing_project.Base.Maps.{get, put, update, values}
use rd_testing_project.Base.Sort.{newest_first}
use rd_testing_project.Models.{Uuid, Command, CommandResult}
use rd_testing_project.Store.{not_found, unauthorized, Result}
use rd_testing_project.Postgres.{
  Database, Query, query_row, query_all, exec, exec_affecting, of_org, has,
}

abbrev pub org_of_command : Command → Uuid
org_of_command c = c.organization_id

module _ (q : Query) where
  -- The table has no column for the nonce, which a scan leaves empty.
  abbrev pub inserted_command : Command → Command
  inserted_command cmd = record cmd {
    parameters = q.jsonb cmd.parameters;
    nonce = "";
    expires_at = q.timestamptz cmd.expires_at;
    created_at = q.now;
  }

  unfoldable pub create_command : Command → Database → Result Database
  create_command cmd db =
      exec (q.down 0)
        (not (has cmd.id db.commands)
          && has cmd.organization_id db.organizations
          && has cmd.device_id db.devices
          && has cmd.issued_by_user_id db.users)
        (record db { commands = put cmd.id (inserted_command cmd) db.commands })

  unfoldable pub get_command : Uuid → Uuid → Database → Result Command
  get_command org_id command_id db =
      query_row (q.down 0) unauthorized (of_org org_of_command org_id (get command_id db.commands))

  unfoldable pub update_command_status : Uuid → Uuid → String → Database → Result Database
  update_command_status org_id command_id status db =
      exec_affecting (q.down 0) unauthorized
        (is_some (of_org org_of_command org_id (get command_id db.commands)))
        (record db { commands = update command_id (λ c. record c { status = status }) db.commands })

  unfoldable pub list_device_commands : Uuid → Uuid → Database → Result (List Command)
  list_device_commands org_id device_id db = query_all (q.down 0) (
      newest_first (λ (c : Command). c.created_at)
        (keep (λ c. c.organization_id == org_id && c.device_id == device_id) (values db.commands)))

  -- ON CONFLICT (command_id) DO UPDATE SET …, which leaves completed_at as it was.
  abbrev upsert_result : CommandResult → Option CommandResult → CommandResult
  upsert_result res none = record res { completed_at = q.now }
  upsert_result res (some old) = record res { completed_at = old.completed_at }

  -- The command itself is not updated.
  unfoldable pub save_command_result : CommandResult → Database → Result Database
  save_command_result res db = exec (q.down 0) (has res.command_id db.commands) (record db {
    command_results =
        put res.command_id (upsert_result res (get res.command_id db.command_results))
          db.command_results;
  })

  unfoldable pub get_command_result : Uuid → Database → Result CommandResult
  get_command_result command_id db =
      query_row (q.down 0) not_found (get command_id db.command_results)
