-- ===== src/Gate/Payload/Ends.antt =====
-- The walk over a payload ends by itself: the fuel is never what stops it.
use rclp.Prelude.{
  ℕ, zero, suc, ◌+◌, ◌≤◌, ◌<◌, ◌≡◌, refl, Bool, true, false, some, [], ◌∷◌, arith, Option-cases,
  inl, inr,
}
use rclp.Core.Value.{Value, Fields}
use rclp.Core.Runtime.{Runtime}
use rclp.Gate.Payload.{Stack, max_command_payload_nodes, visit, walk, command_payload_budget}

visit_room :
    (rt : Runtime) (value : Value) (depth : ℕ) (stack : Stack) (nodes bytes : ℕ) (r : Stack × ℕ)
    → visit rt value depth stack nodes bytes ≡ some r
    → nodes < max_command_payload_nodes
unfolding visit
visit_room rt value depth stack nodes bytes r h = ground arith

walk_ends :
    (rt : Runtime) (fuel : ℕ) (stack : Stack) (nodes bytes : ℕ)
    → nodes ≤ max_command_payload_nodes
    → max_command_payload_nodes < fuel + nodes
    → (violated : Bool) × (walk rt fuel stack nodes bytes ≡ some violated)
unfolding walk
walk_ends rt zero [] nodes bytes room h = (false, refl)
walk_ends rt (suc fuel) [] nodes bytes room h = (false, refl)
walk_ends rt zero (top ∷ stack) nodes bytes room h = absurd (omega arith)
walk_ends rt (suc fuel) ((value, depth) ∷ stack) nodes bytes room h =
    elim (Option-cases (visit rt value depth stack nodes bytes)) [
      | inl over ↦ (true, rw (over, walk))
      | inr ((stack', bytes'), on) ↦
          let room' = visit_room rt value depth stack nodes bytes (stack', bytes') on in
          let (violated, ends) =
            walk_ends rt fuel stack' (nodes + 1) bytes' (omega arith) (omega arith) in
          (violated, rw (on, walk) ends)
    ]

-- For every payload the walk ends with an answer: 2049 rounds are always enough.
pub command_payload_budget_total :
    (rt : Runtime) (payload : Fields)
    → (violated : Bool) × (command_payload_budget rt payload ≡ some violated)
unfolding command_payload_budget
command_payload_budget_total rt payload =
    walk_ends rt (suc max_command_payload_nodes) ((Value.dict payload, 1) ∷ []) 0 0 (omega arith)
      (omega arith)
