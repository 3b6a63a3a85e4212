-- ===== src/Routine.antt =====
-- src/core/routine_control.c: service 0x31 over a registry of routines, a list of its entries.
-- `null` stands for the test whether one of the pointer arguments is NULL.
pub mod Control
mod Tests
use uds.Base.{
  ℕ, ◌+◌, Bool, true, false, not, ◌&&◌, ◌||◌, Option, none, some, List, [], ◌∷◌, ◌++◌, take, ltb,
  ◌==◌, if◌then◌else◌,
}
use uds.Core.{
  Reply, positive, negative, err_param, err_buf, request_out_of_range, security_access_denied,
  conditions_not_correct, sub_function_not_supported, byte_at, low_byte,
}

-- `UdsRoutineState`
pub data RoutineState : Type 0 where
  idle running stopped result_available : RoutineState

abbrev pub is_running : RoutineState → Bool
is_running running = true
is_running s = false

abbrev pub has_result : RoutineState → Bool
has_result result_available = true
has_result s = false

-- `UdsRoutineEntry`
pub record RoutineEntry : Type 0 where
  pub routine_id : ℕ
  pub state : RoutineState
  pub result_data : List ℕ
  pub result_len : ℕ
  pub min_session : ℕ
  pub requires_security : Bool

-- `uds_routine_registry_init`: the registry has the first `count` entries.
unfoldable pub routine_registry_init :
    Bool → List RoutineEntry → List RoutineEntry → ℕ → List RoutineEntry
routine_registry_init null reg entries count = if null then reg else take count entries

-- `routine_find`: the first entry with the identifier.
unfoldable pub routine_find : List RoutineEntry → ℕ → Option RoutineEntry
routine_find [] routine_id = none
routine_find (e ∷ reg) routine_id =
    if e.routine_id == routine_id then some e else routine_find reg routine_id

-- `entry->state = …` through the pointer that `routine_find` returns.
unfoldable pub set_state : List RoutineEntry → ℕ → RoutineState → List RoutineEntry
set_state [] routine_id state = []
set_state (e ∷ reg) routine_id state =
    if e.routine_id == routine_id
    then record e { state = state } ∷ reg
    else e ∷ set_state reg routine_id state

-- The `switch` of `uds_svc_routine_control`, at the entry that was found.
unfoldable pub perform : List RoutineEntry → RoutineEntry → ℕ → ℕ → ℕ → Reply × List RoutineEntry
perform reg e sub_fn routine_id resp_size =
    let head : List ℕ = 0x71 ∷ sub_fn ∷ byte_at routine_id 8 ∷ low_byte routine_id ∷ [] in
    if sub_fn == 0x01
    then (if ltb resp_size 4
        then (err_buf, reg)
        else (positive head, set_state reg routine_id running))
    else if sub_fn == 0x02
    then (if not (is_running e.state)
        then (negative conditions_not_correct, reg)
        else if ltb resp_size 4
        then (err_buf, reg)
        else (positive head, set_state reg routine_id stopped))
    else if sub_fn == 0x03
    then (if not (has_result e.state)
        then (negative conditions_not_correct, reg)
        else if ltb resp_size (4 + e.result_len)
        then (err_buf, reg)
        else (positive (head ++ take e.result_len e.result_data), reg))
    else (negative sub_function_not_supported, reg)

-- `uds_svc_routine_control`; the option record is not read.
unfoldable pub routine_control :
    Bool → List RoutineEntry → ℕ → ℕ → ℕ → Bool → ℕ → Reply × List RoutineEntry
unfolding perform
routine_control null reg sub_fn routine_id session_type security_unlocked resp_size =
    if null
    then (err_param, reg)
    else if ltb sub_fn 0x01 || ltb 0x03 sub_fn
    then (negative sub_function_not_supported, reg)
    else elim (routine_find reg routine_id) [
      | none ↦ (negative request_out_of_range, reg)
      | some e ↦
          if ltb session_type e.min_session
          then (negative request_out_of_range, reg)
          else if e.requires_security && not security_unlocked
          then (negative security_access_denied, reg)
          else perform reg e sub_fn routine_id resp_size
    ]
