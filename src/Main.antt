-- ===== src/Main.antt =====
-- src/ecusim/main.c: the command line of the simulator.
pub mod Strtol
pub mod Args
pub mod Process
mod Tests
use uds.Base.{
  ℕ, Bool, true, false, not, ◌||◌, Option, none, some, List, [], ◌∷◌, length, ◌!=◌, if◌then◌else◌,
}
use uds.Base.Int.{pos_part, le_ℤ, lt_ℤ}
use Prim.Native.String.{String}
use Prim.Native.Char.{code}
use text.Mathlib.Text.{◌==◌}
use uds.Main.Strtol.{strtol}

-- The bytes of an argument.
abbrev pub codes : String → List ℕ
codes String.[] = []
codes (String.◌∷◌ c s) = code c ∷ codes s

-- `ifname`, `ecu_id` and `verbose` of `main`.
pub record Settings : Type 0 where
  pub ifname : String
  pub ecu_id : ℕ
  pub verbose : Bool

abbrev pub defaults : Settings
defaults = record { ifname = "vcan0"; ecu_id = 1; verbose = false }

-- What an argument is compared with.
pub data Flag : Type 0 where
  interface_flag ecu_id_flag verbose_flag help_flag unknown : Flag

unfoldable pub flag_of : String → Flag
flag_of arg =
    if arg == "--interface"
    then interface_flag
    else if arg == "--ecu-id"
    then ecu_id_flag
    else if arg == "--verbose"
    then verbose_flag
    else if arg == "--help" || arg == "-h"
    then help_flag
    else unknown

-- The value of `--ecu-id`, none where `main` refuses it.
unfoldable pub read_id : String → Option ℕ
unfolding strtol
read_id value = elim (strtol (codes value)) [
  | none ↦ none
  | some (id, end) ↦
      if length end != 0 || not (le_ℤ 1 id) || lt_ℤ 127 id then none else some (pos_part id)
]

-- `main` returns with a code, or goes on.
pub data Parsed : Type 0 where
  exits : ℕ → Parsed
  starts : Settings → Parsed

-- The loop over `argv[i ..]`. The two flags with a value are unknown where none follows.
unfoldable pub parse_args : Settings → List String → Parsed
parse_args s [] = starts s
parse_args s (arg ∷ []) = elim (flag_of arg) [
  | verbose_flag ↦ starts (record s { verbose = true })
  | help_flag ↦ exits 0
  | _ ↦ exits 1
]
parse_args s (arg ∷ value ∷ rest) = elim (flag_of arg) [
  | interface_flag ↦ parse_args (record s { ifname = value }) rest
  | ecu_id_flag ↦ elim (read_id value) [
    | none ↦ exits 1
    | some id ↦ parse_args (record s { ecu_id = id }) rest
  ]
  | verbose_flag ↦ parse_args (record s { verbose = true }) (value ∷ rest)
  | help_flag ↦ exits 0
  | unknown ↦ exits 1
]
