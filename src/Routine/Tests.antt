-- ===== src/Routine/Tests.antt =====
-- Service 0x31 of src/core/routine_control.c on a registry with one routine.
use uds.Base.{◌≡◌, ◌↔◌, true, false, some, List, [], ◌∷◌, ◌==◌, ◌&&◌, if◌then◌else◌}
use mathlib.Core.Option
use uds.Core.{is_positive}
use uds.Routine.{RoutineEntry, running, routine_find, routine_control}
use uds.Routine.Control.{
  MayControl, IsEnabled, stepped, routine_control-granted_iff, routine_control-effect,
}

abbrev reg : List RoutineEntry
reg =
    record {
      routine_id = 0xFF00;
      state = running;
      result_data = 1 ∷ [];
      result_len = 1;
      min_session = 2;
      requires_security = true;
    }
    ∷ []

routine_control-granted_iff_example :
    (is_positive (routine_control false reg 2 0xFF00 2 true 8).0 ≡ true) ↔ (
      (e : RoutineEntry) × (routine_find reg 0xFF00 ≡ some e)
      × MayControl e 2 true
      × IsEnabled 2 e 8)
routine_control-granted_iff_example = routine_control-granted_iff reg 2 0xFF00 2 true 8

routine_control-effect_example :
    let (r, reg') = routine_control false reg 2 0xFF00 2 true 8 in
    routine_find reg' 0xFF00 ≡ (
      if is_positive r && 0xFF00 == 0xFF00
      then Option.map (stepped 2) (routine_find reg 0xFF00)
      else routine_find reg 0xFF00)
routine_control-effect_example = routine_control-effect false reg 2 0xFF00 2 true 8 0xFF00
