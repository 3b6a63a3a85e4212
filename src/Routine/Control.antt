-- ===== src/Routine/Control.antt =====
-- Service 0x31 of src/core/routine_control.c as a state machine on each routine.
use mathlib.Core.Option
use uds.Base.{
  ℕ, ◌+◌, ◌≤◌, ◌≡◌, ◌↔◌, ◌⊎◌, inl, inr, Option-cases, ◌&&◌, Bool, true, false, some, List, [], ◌∷◌,
  ◌==◌, if◌then◌else◌, arith,
}
use uds.Core.{is_positive}
use uds.Routine.{
  RoutineState, running, stopped, result_available, RoutineEntry, routine_find, set_state,
  routine_control,
}

abbrev pub with_state : RoutineState → RoutineEntry → RoutineEntry
with_state s e = record e { state = s }

pub routine_find-set_state :
    (reg : List RoutineEntry) (id k : ℕ) (s : RoutineState)
    → routine_find (set_state reg id s) k
      ≡ (if k == id then Option.map (with_state s) (routine_find reg k) else routine_find reg k)
unfolding routine_find set_state
routine_find-set_state [] id k s = ground arith
routine_find-set_state (x ∷ reg) id k s = ground (arith, routine_find-set_state reg id k s)

-- What a request must meet before its sub-function is looked at.
abbrev pub MayControl : RoutineEntry → ℕ → Bool → Type 0
MayControl e session_type unlocked =
    (e.min_session ≤ session_type) × (e.requires_security ≡ true → unlocked ≡ true)

-- A start needs no state; a stop needs a routine that runs; a result must be there.
abbrev pub IsEnabled : ℕ → RoutineEntry → ℕ → Type 0
IsEnabled sub_fn e resp_size =
    ((sub_fn ≡ 1) × (4 ≤ resp_size))
    ⊎ ((sub_fn ≡ 2) × (e.state ≡ running) × (4 ≤ resp_size))
    ⊎ ((sub_fn ≡ 3) × (e.state ≡ result_available) × (4 + e.result_len ≤ resp_size))

-- The service is granted exactly to a request that may control the routine it names and that is
-- enabled.
pub routine_control-granted_iff :
    (reg : List RoutineEntry) (sub_fn id session_type : ℕ) (unlocked : Bool) (resp_size : ℕ)
    → (is_positive (routine_control false reg sub_fn id session_type unlocked resp_size).0 ≡ true)
      ↔ ((e : RoutineEntry) × (routine_find reg id ≡ some e)
          × MayControl e session_type unlocked
          × IsEnabled sub_fn e resp_size)
unfolding routine_control
routine_control-granted_iff reg sub_fn id session_type unlocked resp_size =
    elim (Option-cases (routine_find reg id)) [
      | inl missing ↦ (
        λ h. absurd (ground (arith, missing, h)),
        λ (e, f, m, n). absurd (ground (arith, missing, f)),
      )
      | inr (e, found) ↦ (
        λ h. (e, found, ground (arith, found, h), ground (arith, found, h)),
        λ (e', f, m, n). ground (arith, f, m, n),
      )
    ]

-- What a granted sub-function makes of a state.
abbrev pub after : ℕ → RoutineState → RoutineState
after sub_fn s = if sub_fn == 1 then running else if sub_fn == 2 then stopped else s

abbrev pub stepped : ℕ → RoutineEntry → RoutineEntry
stepped sub_fn e = record e { state = after sub_fn e.state }

-- A request that is granted moves the routine that it names, and no other; one that is refused moves
-- none.
pub routine_control-effect :
    (null : Bool) (reg : List RoutineEntry) (sub_fn id session_type : ℕ) (unlocked : Bool)
    (resp_size k : ℕ)
    → let (r, reg') = routine_control null reg sub_fn id session_type unlocked resp_size in
      routine_find reg' k ≡ (
        if is_positive r && k == id
        then Option.map (stepped sub_fn) (routine_find reg k)
        else routine_find reg k)
unfolding routine_control
routine_control-effect null reg sub_fn id session_type unlocked resp_size k =
    ground (arith, routine_find-set_state reg id k running, routine_find-set_state reg id k stopped)
