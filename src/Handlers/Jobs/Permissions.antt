-- ===== src/Handlers/Jobs/Permissions.antt =====
-- job_handler.go: who may queue which command, and what is queued.
use rd_testing_project.Base.{
  ◌≡◌, inl, inr, true, false, some, nat_eq, string_eq, arith, Option-cases, ◌≢◌,
}
use rd_testing_project.Base.Maps.{get, get-put, get-update}
use rd_testing_project.Models.{Uuid, Device, Command}
use rd_testing_project.Store.{MemoryStore}
use rd_testing_project.Store.Devices.{get_device}
use rd_testing_project.Store.Commands.{create_command, save_command_result, status_of_exit}
use rd_testing_project.Http.{Env, Request, Claims, Decoded, audit, status_accepted, status_ok}
use rd_testing_project.Handlers.Jobs.{
  CreateCommandRequest, AgentCommandResultRequest, create_command_handler, report_result, grants,
  required_perm, new_command, new_result,
}

module _ (env : Env) (r : Request) (m : MemoryStore) where
  -- A single command is answered 202 only for an authenticated caller whose claims grant the
  -- permission of the command type, for a device that the path names and the caller's organization
  -- owns; what is then stored under the new id is the command of the request.
  pub create_command_guarded :
      (body : Decoded CreateCommandRequest)
      → (create_command_handler env r body m).0.status ≡ status_accepted
      → (claims : Claims) × (id : Uuid) × (dev : Device) × (r.claims ≡ some claims)
        × (env.parse_uuid (r.path_value "deviceId") ≡ some id)
        × (get id m.devices ≡ some dev)
        × (dev.organization_id ≡ claims.organization_id)
        × (grants (required_perm body.value.command_type) claims.permissions ≡ true)
        × (get (env.new_id 0) (create_command_handler env r body m).1.commands
            ≡ some (new_command env claims id body.value))
  unfolding create_command_handler create_command get_device audit
  create_command_guarded body h = elim (Option-cases r.claims) [
    | inl c ↦ absurd (ground arith)
    | inr (claims, c) ↦ elim (Option-cases (env.parse_uuid (r.path_value "deviceId"))) [
      | inl e ↦ absurd (ground arith)
      | inr (id, e) ↦ elim (Option-cases (get id m.devices)) [
        | inl q ↦ absurd (ground arith)
        | inr (dev, q) ↦ (
          claims,
          id,
          dev,
          c,
          e,
          q,
          ground arith,
          ground arith,
          ground (
            arith,
            get-put (env.new_id 0) (env.new_id 0) (new_command env claims id body.value) m.commands,
          ),
        )
      ]
    ]
  ]

  -- An authenticated caller whose claims do not grant the permission of the command type is not
  -- answered 202, and the store stays as it was.
  create_command_refused :
      (body : Decoded CreateCommandRequest) (claims : Claims)
      → r.claims ≡ some claims
      → grants (required_perm body.value.command_type) claims.permissions ≡ false
      → ((create_command_handler env r body m).1 ≡ m)
        × ((create_command_handler env r body m).0.status ≢ status_accepted)
  unfolding create_command_handler create_command get_device audit
  create_command_refused body claims c h = (ground arith, λ x. ground arith)

  -- A result that parses, for a command that exists, is answered 200, is stored under the command,
  -- and sets the command's status by its exit code and nothing else of it.
  report_result_records :
      (body : Decoded AgentCommandResultRequest) (id : Uuid) (cmd : Command)
      → env.parse_uuid (r.path_value "commandId") ≡ some id
      → body.failed ≡ false
      → get id m.commands ≡ some cmd
      → (get id (report_result env r body m).1.commands
          ≡ some (record cmd { status = status_of_exit body.value.exit_code }))
        × (get id (report_result env r body m).1.command_results
            ≡ some (new_result env id body.value))
        × ((report_result env r body m).0.status ≡ status_ok)
  unfolding report_result save_command_result
  report_result_records body id cmd e f here = (
    ground (
      arith,
      get-update id id (λ (c : Command). record c { status = status_of_exit body.value.exit_code })
          m.commands,
    ),
    ground (arith, get-put id id (new_result env id body.value) m.command_results),
    ground arith,
  )
