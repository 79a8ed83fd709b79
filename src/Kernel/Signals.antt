-- ===== src/Kernel/Signals.antt =====
-- src/os/src/task/signal.rs and action.rs, and the system calls on signals of src/os/src/syscall/process.rs: a
-- task as far as signals go. A `SignalFlags` is the set of its bits.
pub mod Delivery
mod Tests
use project_r_core.Common.{
  ℕ, zero, suc, ◌+◌, ◌%◌, ◌^◌, Bool, true, false, not, ◌&&◌, ◌||◌, Option, none, some, ◌==◌, ltb,
  if◌then◌else◌,
}

abbrev pub max_sig : ℕ
max_sig = 31

-- The bit sets of `bitflags`, by the number of the bit.
abbrev pub SignalFlags : Type 0
SignalFlags = ℕ → Bool

abbrev pub sigdef : ℕ
sigdef = 0

abbrev pub sigkill : ℕ
sigkill = 9

abbrev pub sigcont : ℕ
sigcont = 18

abbrev pub sigstop : ℕ
sigstop = 19

-- `flags.insert(1 << sig)`
pub insert : SignalFlags → ℕ → SignalFlags
insert flags sig k = k == sig || flags k

-- `flags ^= 1 << sig`
unfoldable pub toggle : SignalFlags → ℕ → SignalFlags
toggle flags sig k = if k == sig then not (flags k) else flags k

pub record SignalAction : Type 0 where
  pub handler : ℕ
  pub mask : SignalFlags

-- SignalAction::default: 40 is 0b00101000.
pub default_action : SignalAction
default_action = record { handler = 0; mask = λ k. k == 3 || k == 5 }

pub record TrapContext : Type 0 where
  pub x : ℕ → ℕ
  pub sepc : ℕ

-- The fields of `TaskControlBlockInner` on signals; `handling_sig` is -1 when it is `none`.
pub record Task : Type 0 where
  pub signals : SignalFlags
  pub signal_mask : SignalFlags
  pub handling_sig : Option ℕ
  pub signal_actions : ℕ → SignalAction
  pub killed : Bool
  pub frozen : Bool
  pub trap_ctx : TrapContext
  pub trap_ctx_backup : Option TrapContext

-- The codes that `check_error` returns, without the sign and the text.
pub check_error : SignalFlags → Option ℕ
check_error s =
    if s 2
    then some 2
    else if s 4
    then some 4
    else if s 6
    then some 6
    else if s 8
    then some 8
    else if s 9
    then some 9
    else if s 11
    then some 11
    else none

unfoldable pub call_kernel_signal_handler : ℕ → Task → Task
call_kernel_signal_handler sig t =
    if sig == sigstop
    then (if t.signals sigstop
        then record t { frozen = true; signals = toggle t.signals sigstop }
        else t)
    else if sig == sigcont
    then (if t.signals sigcont
        then record t { frozen = false; signals = toggle t.signals sigcont }
        else t)
    else record t { killed = true }

abbrev set_x : (ℕ → ℕ) → ℕ → ℕ → ℕ → ℕ
set_x x i v j = if j == i then v else x j

unfoldable pub call_user_signal_handler : ℕ → Task → Task
call_user_signal_handler sig t =
    let action = t.signal_actions sig in
    if action.handler == 0 then t else record t {
      signal_mask = action.mask;
      handling_sig = some sig;
      signals = toggle t.signals sig;
      trap_ctx_backup = some t.trap_ctx;
      trap_ctx = record { sepc = action.handler; x = set_x t.trap_ctx.x 10 sig };
    }

pub is_kernel_signal : ℕ → Bool
is_kernel_signal sig = sig == sigkill || sig == sigstop || sig == sigcont || sig == sigdef

-- The mask of the action that is being handled blocks the signal.
pub blocked_by_handler : ℕ → Task → Bool
blocked_by_handler sig t = elim t.handling_sig [
  | none ↦ false
  | some handling ↦ (t.signal_actions handling).mask sig
]

-- The loop of `check_pending_signals` from `sig` on, with `n` signals left.
pub check_loop : ℕ → ℕ → Task → Task
unfolding is_kernel_signal blocked_by_handler
check_loop zero sig t = t
check_loop (suc n) sig t =
    let kernel = is_kernel_signal sig in
    let stays = check_loop n (sig + 1) (if kernel then call_kernel_signal_handler sig t else t) in
    let skips = check_loop n (sig + 1) t in
    if not (t.signals sig) || t.signal_mask sig || blocked_by_handler sig t
    then skips
    else if kernel
    then stays
    else call_user_signal_handler sig t

pub check_pending_signals : Task → Task
unfolding check_loop
check_pending_signals t = check_loop (max_sig + 1) 0 t

-- sys_kill on the task that was found: `none` is -1. The number is an `i32` as a `u32`.
pub sys_kill : ℕ → Task → Option Task
unfolding insert
sys_kill signum t =
    let flag = signum % 32 in
    if t.signals flag then none else some (record t { signals = insert t.signals flag })

-- sys_sigaction: the old action and the new task; both pointers are given as not null or null.
pub sys_sigaction : ℕ → Bool → Bool → SignalAction → Task → Option (SignalAction × Task)
sys_sigaction signum action_null old_null action t =
    if ltb max_sig signum
    then none
    else if action_null || old_null || signum == sigkill || signum == sigstop
    then none
    else some (
      t.signal_actions signum,
      record t { signal_actions = λ k. if k == signum then action else t.signal_actions k },
    )

-- sys_sigreturn; `none` is the panic of `unwrap`.
pub sys_sigreturn : Task → Option Task
sys_sigreturn t = elim t.trap_ctx_backup [
  | none ↦ none
  | some ctx ↦ some (record t { handling_sig = none; trap_ctx = ctx })
]

-- sys_procmask: the old mask and the new task; all 32 bits are flags.
pub sys_procmask : SignalFlags → Task → SignalFlags × Task
sys_procmask mask t = (t.signal_mask, record t { signal_mask = mask })
