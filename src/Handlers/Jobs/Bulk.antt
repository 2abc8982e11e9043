-- ===== src/Handlers/Jobs/Bulk.antt =====
-- job_handler.go: the bulk command, one command for each device of the list.
use rd_testing_project.Base.{
  ℕ, zero, suc, ◌+◌, ◌<◌, ◌≡◌, refl, ap, ◌∙◌, false, some, List, [], ◌∷◌, ◌==◌, nat_eq, string_eq,
  arith, text_eq_iff, length, get_elem?, ◌≢◌,
}
use rd_testing_project.Base.Maps.{get, put, get-put}
use rd_testing_project.Models.{Uuid}
use rd_testing_project.Store.{MemoryStore}
use rd_testing_project.Store.Commands.{create_command}
use rd_testing_project.Http.{Env, Request, Claims, Decoded, audit, status_accepted}
use rd_testing_project.Http.Bodies.{bulk, BulkCommandResponse}
use rd_testing_project.Handlers.Jobs.{
  BulkCommandRequest, create_bulk_command, queue_all, bulk_command,
}

-- uuid.New returns no UUID twice.
abbrev pub Fresh : (ℕ → Uuid) → Type 0
Fresh new_id = (i j : ℕ) → new_id i ≡ new_id j → i ≡ j

module _ (env : Env) (claims : Claims) (req : BulkCommandRequest) where
  length-queue_all :
      (i : ℕ) (ids : List Uuid) (m : MemoryStore)
      → length (queue_all env claims req i ids m).0 ≡ length ids
  unfolding queue_all
  length-queue_all i [] m = refl
  length-queue_all i (d ∷ ids) m = ap suc (length-queue_all (suc i) ids _)

  get_elem?-queue_all :
      (i j : ℕ) (ids : List Uuid) (m : MemoryStore)
      → j < length ids
      → get_elem? (queue_all env claims req i ids m).0 j ≡ some (env.new_id (i + j))
  unfolding queue_all
  get_elem?-queue_all i j [] m h = absurd (omega arith)
  get_elem?-queue_all i zero (d ∷ ids) m h = ground arith
  get_elem?-queue_all i (suc j) (d ∷ ids) m h =
      let e : suc i + j ≡ i + suc j = omega arith in
      rw (← e) (get_elem?-queue_all (suc i) j ids _ (omega arith))

  -- The loop from round `i` on leaves what is filed under the ids of other rounds.
  queue_all_below :
      (i k : ℕ) (ids : List Uuid) (m : MemoryStore)
      → Fresh env.new_id
      → k < i
      → get (env.new_id k) (queue_all env claims req i ids m).1.commands
        ≡ get (env.new_id k) m.commands
  unfolding queue_all create_command bulk_command
  queue_all_below i k [] m fresh h = refl
  queue_all_below i k (d ∷ ids) m fresh h =
      let cmd = bulk_command env claims req i d in
      queue_all_below (suc i) k ids (record m { commands = put (env.new_id i) cmd m.commands })
        fresh (omega arith)
      ∙ ground (arith, get-put (env.new_id k) (env.new_id i) cmd m.commands, fresh i k)

  queue_all_stores :
      (i j : ℕ) (ids : List Uuid) (m : MemoryStore) (d : Uuid)
      → Fresh env.new_id
      → get_elem? ids j ≡ some d
      → get (env.new_id (i + j)) (queue_all env claims req i ids m).1.commands
        ≡ some (bulk_command env claims req (i + j) d)
  unfolding queue_all create_command
  queue_all_stores i j [] m d fresh h = cc
  queue_all_stores i zero (x ∷ ids) m d fresh h =
      let cmd = bulk_command env claims req i x in
      let next = record m { commands = put (env.new_id i) cmd m.commands } in
      let e : i + 0 ≡ i = omega arith in
      rw e (
        queue_all_below (suc i) i ids next fresh (omega arith)
        ∙ ground (arith, get-put (env.new_id i) (env.new_id i) cmd m.commands))
  queue_all_stores i (suc j) (x ∷ ids) m d fresh h =
      let e : suc i + j ≡ i + suc j = omega arith in
      rw (← e) (
        queue_all_stores (suc i) j ids
          (record m { commands = put (env.new_id i) (bulk_command env claims req i x) m.commands })
          d fresh h)

below_length : (ids : List Uuid) (j : ℕ) (d : Uuid) → get_elem? ids j ≡ some d → j < length ids
below_length [] j d h = cc
below_length (x ∷ ids) zero d h = omega arith
below_length (x ∷ ids) (suc j) d h = omega (arith, below_length ids j d h)

nonempty_of_get :
    (ids : List Uuid) (j : ℕ) (d : Uuid) → get_elem? ids j ≡ some d → length ids == 0 ≡ false
nonempty_of_get [] j d h = cc
nonempty_of_get (x ∷ ids) j d h = ground arith

module _ (env : Env) (r : Request) (m : MemoryStore) (body : Decoded BulkCommandRequest) where
  -- Without the confirmation text a bulk request is not answered 202 and changes nothing.
  create_bulk_command_unconfirmed :
      body.value.confirmation == "CONFIRM_BULK_ACTION" ≡ false
      → ((create_bulk_command env r body m).1 ≡ m)
        × ((create_bulk_command env r body m).0.status ≢ status_accepted)
  unfolding create_bulk_command
  create_bulk_command_unconfirmed h = (ground arith, λ x. ground arith)

  -- A confirmed bulk request of an authenticated caller is answered 202 and queues for each place
  -- of its device list the command for that device, under a new id that the answer gives at that
  -- place; no id is drawn twice. This holds whatever the caller's permissions, the command type
  -- and the device's organization.
  pub create_bulk_command_queues :
      (claims : Claims) (j : ℕ) (d : Uuid)
      → Fresh env.new_id
      → r.claims ≡ some claims
      → body.failed ≡ false
      → body.value.confirmation ≡ "CONFIRM_BULK_ACTION"
      → get_elem? body.value.device_ids j ≡ some d
      → (answer : BulkCommandResponse) × ((create_bulk_command env r body m).0.status
          ≡ status_accepted)
        × ((create_bulk_command env r body m).0.body ≡ bulk answer)
        × (answer.total_queued ≡ length body.value.device_ids)
        × (get_elem? answer.command_ids j ≡ some (env.new_id j))
        × (get (env.new_id j) (create_bulk_command env r body m).1.commands
            ≡ some (bulk_command env claims body.value j d))
  unfolding create_bulk_command audit
  create_bulk_command_queues claims j d fresh c f t h =
      let some_listed = nonempty_of_get body.value.device_ids j d h in
      let stored = queue_all_stores env claims body.value 0 j body.value.device_ids m d fresh h in
      let e : 0 + j ≡ j = omega arith in
      let runs : (create_bulk_command env r body m).1.commands
          ≡ (queue_all env claims body.value 0 body.value.device_ids m).1.commands =
        ground (arith, text_eq_iff body.value.confirmation "CONFIRM_BULK_ACTION") in
      let ids = (queue_all env claims body.value 0 body.value.device_ids m).0 in
      let room : j < length body.value.device_ids = below_length body.value.device_ids j d h in
      (
        record { total_queued = length ids; command_ids = ids; status = "BATCH_QUEUED" },
        ground (arith, text_eq_iff body.value.confirmation "CONFIRM_BULK_ACTION"),
        ground (arith, text_eq_iff body.value.confirmation "CONFIRM_BULK_ACTION"),
        length-queue_all env claims body.value 0 body.value.device_ids m,
        get_elem?-queue_all env claims body.value 0 j body.value.device_ids m room
            ∙ ap (λ k. some (env.new_id k)) e,
        rw runs (rw e at stored),
      )
