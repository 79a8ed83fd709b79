-- ===== src/Kernel/Signals/Tests.antt =====
-- The theorems on signals at concrete tasks.
use project_r_core.Common.{ℕ, false, ◌||◌, none, ◌==◌}
use project_r_core.Kernel.Signals.{SignalFlags, Task}

abbrev no_flags : SignalFlags
no_flags k = false

-- SIGUSR1 and SIGSTOP are pending.
abbrev pending : SignalFlags
pending k = k == 10 || k == 19

abbrev task_with : SignalFlags → ℕ → Task
task_with mask handler = record {
  signals = pending;
  signal_mask = mask;
  handling_sig = none;
  signal_actions = λ k. record { handler = handler; mask = no_flags };
  killed = false;
  frozen = false;
  trap_ctx = record { x = λ i. 0; sepc = 0x1000 };
  trap_ctx_backup = none;
}

abbrev task : Task
task = task_with no_flags 0x2000

abbrev task0 : Task
task0 = task_with no_flags 0

abbrev masked : Task
masked = task_with pending 0x2000
