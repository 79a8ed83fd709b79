-- ===== src/Kernel/Signals/Delivery.antt =====
-- src/os/src/task/signal.rs: which signals `check_pending_signals` delivers, and what becomes of the task.
use project_r_core.Common.{ℕ, ◌≤◌, ◌<◌, ◌≡◌, true, false, not, ◌||◌}
use project_r_core.Kernel.Signals.{Task, is_kernel_signal, blocked_by_handler}

-- A signal that `check_pending_signals` passes over.
abbrev pub Skips : ℕ → Task → Type 0
Skips sig t = (not (t.signals sig) || t.signal_mask sig || blocked_by_handler sig t) ≡ true

-- The lowest signal that is pending and not masked, when the kernel does not handle it itself.
pub record IsNext (sig : ℕ) (t : Task) : Type 0 where
  pub in_range : sig ≤ 31
  pub lower : (s : ℕ) → s < sig → Skips s t
  pub pending : (not (t.signals sig) || t.signal_mask sig || blocked_by_handler sig t) ≡ false
  pub not_kernel : is_kernel_signal sig ≡ false
