-- ===== src/Trap/User.antt =====
-- `usertrap` of kernel/src/trap.rs and `prepare_return` of kernel/src/process.rs: a trap from a user
-- program, and the way back. What the handler of a system call and `yeld` do is given by the caller.
pub mod Return
pub mod Served
mod Tests
use rust_baremetal.Prelude.{
  ℕ, ◌+◌, ◌-◌, ◌*◌, ◌≤◌, Bool, true, false, not, Option, none, some, bit_and, bit_or, ltb, ◌==◌,
  if◌then◌else◌,
}
use rust_baremetal.Prelude.Word.{word_mod}
use rust_baremetal.Hart.{Hart, interrupt_on, interrupt_off, interrupt_read}
use rust_baremetal.Machine.{add_usize}
use rust_baremetal.Machine.Outcome.{M, done, panic, pure, ◌>>=◌, ◌>>◌, expect, within}
use rust_baremetal.Virtmemory.Pte.{satp_word, trampoline, page_size}
use rust_baremetal.Process.{Process, Trapframe, get_satp, kernel_stack_pages, unlock_manual}

abbrev pub sstatus_spp : ℕ
sstatus_spp = 256

abbrev pub sstatus_spie : ℕ
sstatus_spie = 32

-- The hart with the other registers that a trap uses.
pub record Traps : Type 0 where
  pub hart : Hart
  pub stvec : ℕ
  pub sepc : ℕ
  pub satp : ℕ
  pub stimecmp : ℕ

-- Where the linker has put the routines; `trampoline_text` is `_trampoline`.
pub record Symbols : Type 0 where
  pub trampoline_text : ℕ
  pub uservec_addr : ℕ
  pub usertrap_addr : ℕ
  pub kernelvec_addr : ℕ

-- A subtraction on `usize`, with the overflow check of the `dev` profile.
abbrev sub_usize : ℕ → ℕ → M Traps ℕ
sub_usize a b = λ t. if ltb a b then panic else done (a - b) t

abbrev on_hart : (Hart → Hart) → M Traps (Unit {0})
on_hart f = λ t. done tt (record t { hart = f t.hart })

-- The words of the trapframe that the next trap needs.
pub prepare_return : Symbols → Process → M Traps Process
prepare_return symbols proc = do
  on_hart interrupt_off
  uservec_off ← sub_usize symbols.uservec_addr symbols.trampoline_text
  vec ← add_usize trampoline uservec_off
  _ ← λ t. done tt (record t { stvec = vec })
  satp ← λ t. done t.satp t
  stack ← add_usize proc.stack (kernel_stack_pages * page_size)
  let proc = record proc {
    trapframe = record proc.trapframe {
      kernel_satp = satp;
      kernel_sp = stack;
      trap_handler = symbols.usertrap_addr;
      hartid = 0;
    };
  }
  on_hart (λ h. record h { sstatus = bit_and h.sstatus (word_mod - 1 - sstatus_spp) })
  on_hart (λ h. record h { sstatus = bit_or h.sstatus sstatus_spie })
  _ ← λ t. done tt (record t { sepc = proc.trapframe.epc })
  pure proc

module _ (syscall yeld : Process → M Traps Process) where
  -- The two cases of the `match` on `scause`, and the `match`.
  pub on_syscall : Process → M Traps Process
  on_syscall proc = do
    epc ← add_usize proc.trapframe.epc 4
    on_hart interrupt_on
    syscall (record proc { trapframe = record proc.trapframe { epc = epc } })

  pub on_timer : (time : ℕ) → Process → M Traps Process
  on_timer time proc = do
    next ← add_usize time 1000000
    _ ← λ t. done tt (record t { stimecmp = next })
    yeld proc

  pub dispatch : (scause time : ℕ) → Process → M Traps Process
  unfolding on_syscall on_timer
  dispatch scause time proc =
      if scause == 8
      then on_syscall proc
      else if scause == 0x80000005
      then on_timer time proc
      else (λ t. panic)

  -- It returns the process and the word for `satp`.
  pub usertrap : Symbols → (scause time : ℕ) → Option Process → M Traps (Process × ℕ)
  unfolding dispatch prepare_return
  usertrap symbols scause time current = do
    sepc ← λ t. done t.sepc t
    proc ← expect current
    _ ← λ t. if not (bit_and t.hart.sstatus sstatus_spp == 0) then panic else done tt t
    _ ← λ t. if interrupt_read t.hart then panic else done tt t
    _ ← λ t. done tt (record t { stvec = symbols.kernelvec_addr })
    let proc = record proc { trapframe = record proc.trapframe { epc = sepc } }
    proc ← dispatch scause time proc
    proc ← prepare_return symbols proc
    pure (proc, satp_word (get_satp proc.pagetable))

-- `forkret` of kernel/src/process.rs: the first way to user mode of a new process.
abbrev pub forkret : Symbols → Option Process → M Traps (Process × ℕ)
forkret symbols current = do
  proc ← expect current
  proc ← λ t. within (λ h. record t { hart = h }) (unlock_manual proc t.hart)
  proc ← prepare_return symbols proc
  pure (proc, satp_word (get_satp proc.pagetable))
