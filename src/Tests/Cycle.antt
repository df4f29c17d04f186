-- ===== src/Tests/Cycle.antt =====
-- DetectCyclesInBlockedBy on small graphs.
use shipmates_oss.Prelude.{◌≡◌, ◌⊎◌, refl, true, false, some, List, [], ◌∷◌}
use shipmates_oss.Delegation.Cycle.{TaskForCycle, adjacency_of, detect_cycles_in_blocked_by}
use shipmates_oss.Delegation.Cycle.Correct.{Cyclic, detect_cycles_exact}

abbrev ring : List TaskForCycle
ring = record { id = "b"; blocked_by = "c" ∷ [] } ∷ record { id = "c"; blocked_by = "b" ∷ [] } ∷ []

abbrev line : List TaskForCycle
line = record { id = "b"; blocked_by = "c" ∷ [] } ∷ []

ring_found : detect_cycles_in_blocked_by "a" ("x" ∷ "b" ∷ []) ring ≡ some true
unfolding detect_cycles_in_blocked_by
ring_found = refl

line_passes : detect_cycles_in_blocked_by "a" ("b" ∷ "c" ∷ []) line ≡ some false
unfolding detect_cycles_in_blocked_by
line_passes = refl

self_found : detect_cycles_in_blocked_by "a" ("a" ∷ []) [] ≡ some true
unfolding detect_cycles_in_blocked_by
self_found = refl

detect_cycles_exact_example :
    let adj = adjacency_of "a" ("x" ∷ "b" ∷ []) ring in
    ((detect_cycles_in_blocked_by "a" ("x" ∷ "b" ∷ []) ring ≡ some true) × Cyclic adj "a")
    ⊎ ((detect_cycles_in_blocked_by "a" ("x" ∷ "b" ∷ []) ring ≡ some false) × ¬ Cyclic adj "a")
detect_cycles_exact_example = detect_cycles_exact "a" ("x" ∷ "b" ∷ []) ring
