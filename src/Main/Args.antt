-- ===== src/Main/Args.antt =====
-- The command line of src/ecusim/main.c: what it starts the simulator with.
use Prim.Native.String.{String, ◌++◌ as ◌<>◌}
use uds.Base.{
  ℕ, ◌/◌, ◌%◌, ◌≤◌, ◌≡◌, ◌⊎◌, inl, inr, refl, ◌∙◌, Bool, true, false, ◌||◌, none, some, List, [],
  ◌∷◌, ltb, ◌==◌, if◌then◌else◌, Option-cases, arith,
}
use uds.Base.Bits.{holds_below, holds_below_at}
use uds.Main.{
  Settings, Flag, interface_flag, ecu_id_flag, verbose_flag, help_flag, unknown, flag_of, read_id,
  Parsed, exits, starts, parse_args, codes,
}
use uds.Main.Strtol.{strtol}

pub read_id-range : (value : String) (id : ℕ) → read_id value ≡ some id → (1 ≤ id) × (id ≤ 127)
unfolding read_id
read_id-range value id h = elim (Option-cases (strtol (codes value))) [
  | inl missing ↦ ground (arith, h, missing)
  | inr ((n, end), got) ↦ ground (arith, h, got)
]

-- The simulator is started with an identifier of an ECU, or `main` returns 0 or 1.
abbrev pub IsUsable : Parsed → Type 0
IsUsable (exits code) = code ≤ 1
IsUsable (starts s) = (1 ≤ s.ecu_id) × (s.ecu_id ≤ 127)

Flag-cases :
    (f : Flag)
    → (f ≡ interface_flag)
      ⊎ (f ≡ ecu_id_flag)
      ⊎ (f ≡ verbose_flag)
      ⊎ (f ≡ help_flag)
      ⊎ (f ≡ unknown)
Flag-cases interface_flag = inl refl
Flag-cases ecu_id_flag = inr (inl refl)
Flag-cases verbose_flag = inr (inr (inl refl))
Flag-cases help_flag = inr (inr (inr (inl refl)))
Flag-cases unknown = inr (inr (inr (inr refl)))

-- From an identifier of an ECU on, the command line starts the simulator with an identifier of an ECU,
-- from 1 to 127, or `main` returns 0 or 1 at once.
pub parse_args-IsUsable :
    (s : Settings) (argv : List String)
    → 1 ≤ s.ecu_id
    → s.ecu_id ≤ 127
    → IsUsable (parse_args s argv)
unfolding parse_args
parse_args-IsUsable s [] lo hi = (lo, hi)
parse_args-IsUsable s (arg ∷ []) lo hi = elim (Flag-cases (flag_of arg)) [
  | inl e ↦ rw (IsUsable, e) (omega arith)
  | inr (inl e) ↦ rw (IsUsable, e) (omega arith)
  | inr (inr (inl e)) ↦ rw (IsUsable, e) (lo, hi)
  | inr (inr (inr (inl e))) ↦ rw (IsUsable, e) (omega arith)
  | inr (inr (inr (inr e))) ↦ rw (IsUsable, e) (omega arith)
]
parse_args-IsUsable s (arg ∷ value ∷ rest) lo hi = elim (Flag-cases (flag_of arg)) [
  | inl e ↦ rw (IsUsable, e) (parse_args-IsUsable (record s { ifname = value }) rest lo hi)
  | inr (inl e) ↦ elim (Option-cases (read_id value)) [
    | inl refused ↦ rw (IsUsable, e, refused) (omega arith)
    | inr (id, read) ↦
        let (lo', hi') = read_id-range value id read in
        rw (IsUsable, e, read) (parse_args-IsUsable (record s { ecu_id = id }) rest lo' hi')
  ]
  | inr (inr (inl e)) ↦
      rw (IsUsable, e) (parse_args-IsUsable (record s { verbose = true }) (value ∷ rest) lo hi)
  | inr (inr (inr (inl e))) ↦ rw (IsUsable, e) (omega arith)
  | inr (inr (inr (inr e))) ↦ rw (IsUsable, e) (omega arith)
]

-- A number below 1000 in decimal.
abbrev digit : ℕ → String
digit d =
    if d == 0
    then "0"
    else if d == 1
    then "1"
    else if d == 2
    then "2"
    else if d == 3
    then "3"
    else if d == 4
    then "4"
    else if d == 5
    then "5"
    else if d == 6
    then "6"
    else if d == 7
    then "7"
    else if d == 8
    then "8"
    else "9"

unfoldable pub decimal : ℕ → String
decimal n =
    if ltb n 10
    then digit n
    else if ltb n 100
    then digit (n / 10) <> digit (n % 10)
    else digit (n / 100) <> digit (n / 10 % 10) <> digit (n % 10)

reads_back : ℕ → Bool
reads_back n = n == 0 || (elim (read_id (decimal n)) [ none ↦ false | some id ↦ id == n ])

reads_back_table : holds_below reads_back 128 ≡ true
unfolding holds_below reads_back read_id strtol decimal
reads_back_table = refl

read_id-decimal : (n : ℕ) → 1 ≤ n → n ≤ 127 → read_id (decimal n) ≡ some n
unfolding reads_back
read_id-decimal n lo hi =
    let known : reads_back n ≡ true =
      holds_below_at reads_back 128 n (omega arith) reads_back_table in
    elim (Option-cases (read_id (decimal n))) [
      | inl refused ↦ ground (arith, known, refused)
      | inr (id, read) ↦ ground (arith, known, read)
    ]

-- A command line for the settings.
unfoldable pub args_of : Settings → List String
args_of s =
    "--interface"
    ∷ s.ifname
    ∷ "--ecu-id"
    ∷ decimal s.ecu_id
    ∷ (if s.verbose then "--verbose" ∷ [] else [])

interface_lem :
    (s : Settings) (value : String) (rest : List String)
    → parse_args s ("--interface" ∷ value ∷ rest) ≡ parse_args (record s { ifname = value }) rest
unfolding parse_args flag_of
interface_lem s value rest = refl

ecu_id_lem :
    (s : Settings) (value : String) (id : ℕ) (rest : List String)
    → read_id value ≡ some id
    → parse_args s ("--ecu-id" ∷ value ∷ rest) ≡ parse_args (record s { ecu_id = id }) rest
unfolding parse_args flag_of
ecu_id_lem s value id rest read = rw (parse_args, read) refl

verbose_lem :
    (s : Settings) (verbose : Bool)
    → s.verbose ≡ false
    → parse_args s (if verbose then "--verbose" ∷ [] else [])
      ≡ starts (record s { verbose = verbose })
unfolding parse_args flag_of
verbose_lem s true quiet = refl
verbose_lem s false quiet = ground (arith, quiet)

-- Every interface name, every identifier from 1 to 127 in decimal and the flag `--verbose`, given on the
-- command line, are what `main` starts the simulator with, from settings that are not verbose.
pub parse_args-args_of :
    (from s : Settings)
    → from.verbose ≡ false
    → 1 ≤ s.ecu_id
    → s.ecu_id ≤ 127
    → parse_args from (args_of s) ≡ starts s
unfolding args_of
parse_args-args_of from s quiet lo hi =
    let flags = if s.verbose then "--verbose" ∷ [] else [] in
    let named : Settings = record from { ifname = s.ifname } in
    interface_lem from s.ifname ("--ecu-id" ∷ decimal s.ecu_id ∷ flags)
    ∙ ecu_id_lem named (decimal s.ecu_id) s.ecu_id flags (read_id-decimal s.ecu_id lo hi)
    ∙ verbose_lem (record named { ecu_id = s.ecu_id }) s.verbose quiet
