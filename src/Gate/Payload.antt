-- ===== src/Gate/Payload.antt =====
-- command_gate.py: the budget of a command's payload, walked with an explicit stack.
pub mod Ends
use rclp.Prelude.{
  ℕ, zero, suc, ◌+◌, ◌/◌, ◌-◌, Bool, true, false, ◌||◌, Option, none, some, String, len, List, [],
  ◌∷◌, ltb, if◌then◌else◌,
}
use rclp.Core.Float.{Float}
use rclp.Core.Value.{
  Value, null, bool, int, float, str, list, dict, Items, nil, cons, Fields, end, field,
}
use rclp.Core.Runtime.{Runtime}

abbrev pub max_command_payload_depth : ℕ
max_command_payload_depth = 32

abbrev pub max_command_payload_nodes : ℕ
max_command_payload_nodes = 2048

abbrev pub max_command_payload_estimated_bytes : ℕ
max_command_payload_estimated_bytes = 65536

-- `len(value.encode("utf-8")) + 2`
abbrev text_bytes : String → ℕ
text_bytes text = len text + 2

-- `len(str(value))` of a negative integer counts its sign; `str(0)` has none.
unfoldable pub int_bytes : Runtime → Bool → ℕ → ℕ
int_bytes rt true (suc n) = len (rt.str_int (suc n)) + 1
int_bytes rt _ n = len (rt.str_int n)

unfoldable pub estimated_payload_bytes : Runtime → Value → ℕ
unfolding int_bytes
estimated_payload_bytes rt null = 4
estimated_payload_bytes rt (bool true) = 4
estimated_payload_bytes rt (bool false) = 5
estimated_payload_bytes rt (str text) = text_bytes text
estimated_payload_bytes rt (int negative n) = int_bytes rt negative n
estimated_payload_bytes rt (float x) = len (rt.str_float x)
estimated_payload_bytes rt (list xs) = 2
estimated_payload_bytes rt (dict fs) = 2

abbrev pub Stack : Type 0
Stack = List (Value × ℕ)

unfoldable pub push_items : Items → ℕ → Stack → Stack
push_items nil depth stack = stack
push_items (cons x xs) depth stack = push_items xs depth ((x, depth) ∷ stack)

-- The keys are counted while their values are pushed; `none` is the budget exceeded.
unfoldable pub push_fields : Fields → ℕ → Stack → ℕ → Option (Stack × ℕ)
push_fields end depth stack bytes = some (stack, bytes)
push_fields (field key child fs) depth stack bytes =
    let rest = push_fields fs depth ((child, depth) ∷ stack) (bytes + text_bytes key) in
    if ltb max_command_payload_estimated_bytes (bytes + text_bytes key) then none else rest

-- The children of a value on the stack, and the bytes so far.
unfoldable pub push_children : Value → ℕ → Stack → ℕ → Option (Stack × ℕ)
push_children (dict fs) depth stack bytes = push_fields fs depth stack bytes
push_children (list xs) depth stack bytes = some (push_items xs depth stack, bytes)
push_children v depth stack bytes = some (stack, bytes)

-- One round on the popped value: too deep, too many, too large, or on with its children.
unfoldable pub visit : Runtime → Value → ℕ → Stack → ℕ → ℕ → Option (Stack × ℕ)
visit rt value depth stack nodes bytes =
    if ltb max_command_payload_depth depth
    then none
    else if ltb max_command_payload_nodes (nodes + 1)
    then none
    else if ltb max_command_payload_estimated_bytes (bytes + estimated_payload_bytes rt value)
    then none
    else push_children value (depth + 1) stack (bytes + estimated_payload_bytes rt value)

-- The loop; `none` is out of fuel, and `some true` is a violation.
unfoldable pub walk : Runtime → ℕ → Stack → ℕ → ℕ → Option Bool
walk rt fuel [] nodes bytes = some false
walk rt zero (top ∷ stack) nodes bytes = none
walk rt (suc fuel) ((value, depth) ∷ stack) nodes bytes =
    elim (visit rt value depth stack nodes bytes) [
      | none ↦ some true
      | some (stack', bytes') ↦ walk rt fuel stack' (nodes + 1) bytes'
    ]

-- One round more than the nodes that are allowed.
unfoldable pub command_payload_budget : Runtime → Fields → Option Bool
command_payload_budget rt payload =
    walk rt (suc max_command_payload_nodes) ((dict payload, 1) ∷ []) 0 0

unfoldable pub command_payload_budget_violation : Runtime → Fields → Bool
command_payload_budget_violation rt payload = elim (command_payload_budget rt payload) [
  | none ↦ true
  | some violated ↦ violated
]
