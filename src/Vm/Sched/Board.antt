-- ===== src/Vm/Sched/Board.antt =====
-- The tasks of VM/devices/vm.c on the host and the ports. The ports with their reset line, the display
-- and the checkpoint are parameters that act on the state `S`.
use bailey_forbes_flinstone.Base.{ℕ, Bool}
use bailey_forbes_flinstone.Vm.Exec.{Devices}
use bailey_forbes_flinstone.Vm.Step.{run_step}
use bailey_forbes_flinstone.Vm.Host.{Host, tick_advance, reset}
use bailey_forbes_flinstone.Vm.Sched.{Tasks}

-- VM_QUANTUM and VM_TICK_STEP
abbrev pub quantum : ℕ
quantum = 64

abbrev pub tick_step : ℕ
tick_step = 1

-- `s_host` and the rest.
pub record Board (S : Type 0) : Type 0 where
  pub host : Host
  pub dev : S

-- What the board is connected to: the reset line of `vm_io.c`, its pointer to the host, the display
-- and the checkpoint. Through the pointer the ports read the ticks and take scancodes: `lend` puts the
-- host in their state before the CPU runs, and `give_back` takes from it what they left of the host.
pub record Outside (S : Type 0) : Type 0 where
  pub requested : S → Bool
  pub clear : S → S
  pub connect : Bool → S → S
  pub refresh : Host → S → S
  pub checkpoint : Host → S → S
  pub lend : Host → S → S
  pub give_back : S → Host → Host

module _ {S : Type 0} (d : Devices S) (junk : ℕ → ℕ) (o : Outside S) where
  -- `vm_cpu_task_fn`
  unfoldable pub cpu_task : Board S → Board S
  unfolding run_step
  cpu_task b =
      let shared = o.lend b.host b.dev in
      let m =
        (run_step d junk (record { cpu = b.host.cpu; mem = b.host.mem; dev = shared }) quantum).1 in
      record { host = o.give_back m.dev (record b.host { cpu = m.cpu; mem = m.mem }); dev = m.dev }

  -- `vm_timer_task_fn`
  unfoldable pub timer_task : Board S → Board S
  unfolding tick_advance
  timer_task b = record b { host = tick_advance b.host tick_step }

  unfoldable pub board_tasks : Tasks (Board S)
  unfolding cpu_task timer_task reset
  board_tasks = record {
    is_halted = λ b. b.host.cpu.halted;
    reset_requested = λ b. o.requested b.dev;
    clear_reset = λ b. record b { dev = o.clear b.dev };
    reset_host = λ b. record b { host = reset b.host };
    set_host = λ on b. record b { dev = o.connect on b.dev };
    run_cpu = cpu_task;
    refresh_display = λ b. record b { dev = o.refresh b.host b.dev };
    advance_tick = timer_task;
    save_checkpoint = λ b. record b { dev = o.checkpoint b.host b.dev };
  }
