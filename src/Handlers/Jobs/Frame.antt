-- ===== src/Handlers/Jobs/Frame.antt =====
-- job_handler.go: which part of the store each handler writes, and what it writes where it answers with
-- an error.
use rd_testing_project.Models.{Uuid}
use rd_testing_project.Base.Maps.{put}
use rd_testing_project.Base.{
  ℕ, suc, refl, List, [], ◌∷◌, Option-cases, inl, inr, ◌≡◌, ◌≤◌, arith, nat_eq, string_eq,
}
use rd_testing_project.Store.{MemoryStore}
use rd_testing_project.Store.Frame.{core, IsUntouched}
use rd_testing_project.Store.Devices.{get_device}
use rd_testing_project.Store.Commands.{create_command, get_command, save_command_result}
use rd_testing_project.Http.{Env, Claims, Request, Decoded, audit}
use rd_testing_project.Handlers.Jobs.{
  create_command_handler, get_command_handler, create_bulk_command, report_result, queue_all,
  bulk_command, AgentCommandResultRequest, BulkCommandRequest, CreateCommandRequest,
}

-- The loop writes nothing but commands.
core-queue_all :
    (env : Env) (claims : Claims) (req : BulkCommandRequest) (i : ℕ) (ids : List Uuid)
    (m : MemoryStore)
    → core (queue_all env claims req i ids m).1 ≡ core m
unfolding queue_all create_command
core-queue_all env claims req i [] m = refl
core-queue_all env claims req i (id ∷ ids) m =
    core-queue_all env claims req (suc i) ids
      (record m { commands = put (env.new_id i) (bulk_command env claims req i id) m.commands })

module _ (env : Env) (r : Request) (m : MemoryStore) where
  pub core-create_command_handler :
      (body : Decoded CreateCommandRequest) → core (create_command_handler env r body m).1 ≡ core m
  unfolding create_command_handler get_device create_command audit
  core-create_command_handler body = ground arith

  pub create_command_handler-IsUntouched :
      (body : Decoded CreateCommandRequest)
      → 400 ≤ (create_command_handler env r body m).0.status
      → IsUntouched m (create_command_handler env r body m).1
  unfolding create_command_handler get_device create_command audit
  create_command_handler-IsUntouched body h = ground arith

  pub core-get_command_handler : core (get_command_handler env r m).1 ≡ core m
  unfolding get_command_handler get_command
  core-get_command_handler = ground arith

  pub get_command_handler-IsUntouched :
      400 ≤ (get_command_handler env r m).0.status → IsUntouched m (get_command_handler env r m).1
  unfolding get_command_handler get_command
  get_command_handler-IsUntouched h = ground arith

  pub core-create_bulk_command :
      (body : Decoded BulkCommandRequest) → core (create_bulk_command env r body m).1 ≡ core m
  unfolding create_bulk_command audit
  core-create_bulk_command body = elim (Option-cases r.claims) [
    | inl c ↦ ground arith
    | inr (claims, c) ↦
        ground (arith, core-queue_all env claims body.value 0 body.value.device_ids m)
  ]

  pub create_bulk_command-IsUntouched :
      (body : Decoded BulkCommandRequest)
      → 400 ≤ (create_bulk_command env r body m).0.status
      → IsUntouched m (create_bulk_command env r body m).1
  unfolding create_bulk_command audit
  create_bulk_command-IsUntouched body h = ground arith

  pub core-report_result :
      (body : Decoded AgentCommandResultRequest) → core (report_result env r body m).1 ≡ core m
  unfolding report_result save_command_result
  core-report_result body = ground arith

  pub report_result-IsUntouched :
      (body : Decoded AgentCommandResultRequest)
      → 400 ≤ (report_result env r body m).0.status
      → IsUntouched m (report_result env r body m).1
  unfolding report_result save_command_result
  report_result-IsUntouched body h = ground arith
