-- ===== src/Main/Tests.antt =====
-- src/ecusim/main.c at concrete command lines, and a process that gets a signal.
use Prim.Native.String.{String}
use uds.Base.{◌≡◌, inl, refl, true, false, none, some, List, [], ◌∷◌, arith}
use uds.Core.{Timespec}
use uds.Can.{CanFrame, Bus}
use uds.Can.Socket.{System, CanSocket, can_open, set_filter}
use uds.Ecu.Defaults.{init}
use uds.Ecu.Run.{Turn}
use uds.Ecu.Socket.{init_socket, install_filter, cleanup}
use uds.Main.{Settings, defaults, flag_of, read_id, exits, starts, parse_args}
use uds.Main.Strtol.{strtol}
use uds.Main.Args.{args_of, parse_args-args_of}
use uds.Main.Process.{
  main_loop, serving, exited, Process, start, turned, signal, turn, leave, Reach, here, next,
  Settled, Reach-serving, Reach-Settled,
}

hexadecimal : read_id "0x7F" ≡ some 127
unfolding read_id strtol
hexadecimal = refl

octal : read_id " +017" ≡ some 15
unfolding read_id strtol
octal = refl

not_octal : read_id "08" ≡ none
unfolding read_id strtol
not_octal = refl

too_large : read_id "128" ≡ none
unfolding read_id strtol
too_large = refl

below_zero : read_id "-1" ≡ none
unfolding read_id strtol
below_zero = refl

abbrev line : List String
line = "--ecu-id" ∷ "0x20" ∷ "--verbose" ∷ []

line_lem : parse_args defaults line ≡ starts (record defaults { ecu_id = 32; verbose = true })
unfolding parse_args flag_of read_id strtol
line_lem = refl

missing_value : parse_args defaults ("--verbose" ∷ "--ecu-id" ∷ []) ≡ exits 1
unfolding parse_args flag_of
missing_value = refl

abbrev can7 : Settings
can7 = record { ifname = "can7"; ecu_id = 42; verbose = true }

parse_args-args_of_example : parse_args defaults (args_of can7) ≡ starts can7
parse_args-args_of_example = parse_args-args_of defaults can7 refl (omega arith) (omega arith)

abbrev now : Timespec
now = record { tv_sec = 100; tv_nsec = 0 }

abbrev bus : Bus CanFrame
bus = record { is_open = true; arrivals = []; writes = []; sent = []; slept = [] }

abbrev system : System
system = record { socket = some 3; ifindex = 2; binds = true; sets_option = true }

abbrev closed : CanSocket
closed = record { fd = none; open_fds = 0 ∷ []; filters = none; fd_frames = false }

abbrev idle : Process
idle = record { place = serving; g_stop = false; ecu = init 1 now; bus = bus; sock = closed }

abbrev signalled : Process
signalled = record idle { g_stop = true }

running : (init 1 now).running ≡ true
unfolding init
running = refl

abbrev pause : Turn
pause = record { resp = []; now = now; rand = λ i. i; stops = false }

served : Reach idle (turned signalled pause)
served = next (next here (signal refl refl)) (turn refl running pause refl)

Reach-serving_example : (turned signalled pause).place ≡ serving
Reach-serving_example = Reach-serving served refl running

abbrev stopped : Process
stopped = start can7 now system closed bus true

at_loop : stopped.place ≡ main_loop
unfolding start init_socket install_filter can_open set_filter
at_loop = refl

set_before : stopped.g_stop ≡ true
unfolding start
set_before = refl

abbrev ended : Process
ended = record stopped { place = exited 0; sock = cleanup stopped.sock }

Reach-Settled_example : Settled closed.open_fds ended.place ended
Reach-Settled_example =
    Reach-Settled can7 now system closed bus true (omega arith)
      (next here (leave at_loop (inl set_before) refl))
