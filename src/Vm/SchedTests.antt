-- ===== src/Vm/SchedTests.antt =====
-- The scheduler with a board whose guest halts, and the theorems at inputs that meet their hypotheses.
use bailey_forbes_flinstone.Base.{ℕ, ◌+◌, ◌≡◌, refl, arith, true, false, none, some}
use bailey_forbes_flinstone.Vm.Cpu
use bailey_forbes_flinstone.Vm.Exec.{Devices}
use bailey_forbes_flinstone.Vm.Sched.{Tasks, run, run_cycles}
use bailey_forbes_flinstone.Vm.Sched.Board.{Board, Outside, board_tasks}
use bailey_forbes_flinstone.Vm.Sched.Loop.{view, finished, cycles_from, run_cycles-cycles_from}
use bailey_forbes_flinstone.Vm.Sched.Ends.{IsTasks, Ends, run_cycles-Ends}

abbrev ports : Devices ℕ
ports = record { io_in = λ s mem port size. (0, s); io_out = λ s mem port v size. (s, mem) }

-- The state of the outside counts the refreshes; no reset is asked for.
abbrev quiet : Outside ℕ
quiet = record {
  requested = λ s. false;
  clear = λ s. s;
  connect = λ on s. s;
  refresh = λ h s. s + 1;
  checkpoint = λ h s. s;
  lend = λ h s. s;
  give_back = λ s h. h;
}

-- A guest of NOPs.
abbrev board : Board ℕ
board = record {
  host = record {
    mem = record { ram = λ i. 0x90; size = 1024 };
    cpu = record Cpu.init { cs = 0 };
    kbd_queue = λ i. 0;
    kbd_head = 0;
    kbd_tail = 0;
    vm_ticks = 0;
    running = true;
    paused = false;
  };
  dev = 0;
}

abbrev unset : ℕ → ℕ
unset i = 0

abbrev tasks : Tasks (Board ℕ)
tasks = board_tasks ports unset quiet

tasks-IsTasks : IsTasks tasks
unfolding board_tasks
tasks-IsTasks = record { reset_done = λ w. refl; host_apart = λ on w. refl }

run_cycles-Ends_example : Ends tasks 3 (run_cycles tasks 7 3 board)
run_cycles-Ends_example = run_cycles-Ends tasks tasks-IsTasks 3 (omega arith) board

run_cycles-cycles_from_example :
    (view tasks (run_cycles tasks 7 3 board)
      ≡ finished tasks (cycles_from tasks (some 3) 7 (0, tasks.set_host true board)))
    × (view tasks (run tasks 7 board)
        ≡ finished tasks (cycles_from tasks none 7 (0, tasks.set_host true board)))
run_cycles-cycles_from_example = run_cycles-cycles_from tasks 7 3 board
