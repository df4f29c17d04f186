-- ===== src/Tests/Tasks.antt =====
-- A small table of delegated tasks, and claims on it.
use shipmates_oss.Prelude.{ℕ, String, ◌≡◌, ◌≢◌, refl, none, some, List, [], ◌∷◌}
use shipmates_oss.Prelude.Int.{pos}
use shipmates_oss.Store.Types.{DelegatedTask, DelegatedTaskStatus, pending}
use shipmates_oss.Store.World.{World, ok, statement, runs}
use shipmates_oss.Store.Tasks.{front, candidates, claim_row, claim_next_task}
use shipmates_oss.Store.Tasks.Claim.{IsClaimOf, claim_takes_first, claim_exclusive}

abbrev pub task : String → ℕ → ℕ → DelegatedTaskStatus → List String → DelegatedTask
task id priority created status blocked_by = record {
  id = id;
  user_id = "u";
  parent_session_id = none;
  child_session_id = none;
  from_agent_id = "lead";
  to_agent_id = "ann";
  description = "work";
  priority = pos priority;
  status = status;
  error_message = none;
  blocked_by = blocked_by;
  context = "{}";
  max_cost_usd = none;
  actual_cost_usd = none;
  claimed_at = none;
  completed_at = none;
  created_at = created;
}

abbrev pub with_tasks : List DelegatedTask → World
with_tasks tasks = record {
  tasks = tasks;
  locks = [];
  sessions = [];
  agents = [];
  events = [];
  clock = 100;
  turns = runs 5 ∷ [];
  fresh_ids = "n1" ∷ "n2" ∷ [];
}

-- The oldest and most urgent task waits for one that is not done.
abbrev three : World
three = with_tasks (
    task "t1" 90 1 pending ("t3" ∷ []) ∷ task "t2" 50 2 pending [] ∷ task "t3" 50 3 pending [] ∷ [])

claims_t2 :
    (claim_next_task [] "ann" three).0 ≡ ok (some (claim_row 105 (task "t2" 50 2 pending [])))
unfolding claim_next_task statement front candidates
claims_t2 = refl

claim_takes_first_example :
    (t : DelegatedTask) × IsClaimOf t (claim_row 105 (task "t2" 50 2 pending [])) [] "ann" three
claim_takes_first_example = claim_takes_first [] "ann" three _ claims_t2

claims_t3_next :
    (claim_next_task [] "ann" (claim_next_task [] "ann" three).1).0
    ≡ ok (some (claim_row 105 (task "t3" 50 3 pending [])))
unfolding claim_next_task statement front candidates
claims_t3_next = refl

claim_exclusive_example :
    (claim_row 105 (task "t3" 50 3 pending [])).id ≢ (claim_row 105 (task "t2" 50 2 pending [])).id
claim_exclusive_example =
    claim_exclusive [] [] "ann" "ann" three (claim_row 105 (task "t2" 50 2 pending []))
      (claim_row 105 (task "t3" 50 3 pending [])) claims_t2 claims_t3_next

none_for_bob : (claim_next_task [] "bob" three).0 ≡ ok none
unfolding claim_next_task statement front candidates
none_for_bob = refl
