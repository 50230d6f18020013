-- ===== src/Trap/User/Served.antt =====
-- A system call, from the trap to the return.
use rust_baremetal.Prelude.{
  ℕ, ◌+◌, ◌*◌, ◌/◌, ◌%◌, ◌<◌, ◌≡◌, ◌≢◌, ◌∙◌, ◌⊎◌, refl, arith, true, false, not, some, bit_and, ltb,
  ◌==◌,
}
use rust_baremetal.Prelude.Word.{word_mod}
use rust_baremetal.Prelude.Bits.{bit_and_field}
use rust_baremetal.Hart.{Hart, interrupt_on, interrupt_read}
use rust_baremetal.Machine.Outcome.{M, done, panic}
use rust_baremetal.Virtmemory.Pte.{satp_word}
use rust_baremetal.Virtmemory.Pte.Words.{satp_word_sum}
use rust_baremetal.Process.{Process, get_satp}
use rust_baremetal.Trap.User.{Traps, Symbols, dispatch, on_syscall, usertrap}
use rust_baremetal.Trap.User.Return.{prepared, Leaving, IsLinked, prepare_return-Leaving}

pub spp_read : (s : ℕ) → bit_and s 256 ≡ s / 256 % 2 * 256
spp_read s = bit_and_field 1 8 s

pub interrupt_read_lem : (h : Hart) → interrupt_read h ≡ not (h.sstatus / 2 % 2 * 2 == 0)
unfolding interrupt_read
interrupt_read_lem h = rw (bit_and_field 1 1 h.sstatus) refl

-- The word for `satp`: Sv32, and the page of the root.
root_word :
    (p : Process)
    → p.pagetable.root < word_mod
    → satp_word (get_satp p.pagetable) ≡ 2147483648 + p.pagetable.root / 4096
unfolding get_satp
root_word p h =
    satp_word_sum (get_satp p.pagetable) (omega arith) (omega arith) (omega arith) ∙ omega arith

-- What the handler of a system call is called on: the trap's address behind the call, and the
-- kernel's own trap vector, with interrupts on.
abbrev pub trapped : ℕ → Process → Process
trapped epc p = record p { trapframe = record p.trapframe { epc = epc } }

abbrev pub in_kernel : Symbols → Traps → Traps
in_kernel symbols t = record t { stvec = symbols.kernelvec_addr; hart = interrupt_on t.hart }

module _ (syscall yeld : Process → M Traps Process) (symbols : Symbols) (time : ℕ) (p : Process)
    (t : Traps) where
  -- A system call from user mode with interrupts off, whose handler returns, goes back to the
  -- program: the handler has run on the process with its program counter behind the call, and with
  -- interrupts on; the trapframe has the words that the next trap needs, the returned word for
  -- `satp` names the root of the process's page table, and the hart is set to leave for the
  -- process's program counter in user mode.
  pub usertrap-served :
      {p' : Process} {t' : Traps}
      → IsLinked symbols
      → t.hart.sstatus / 256 % 2 ≡ 0
      → t.hart.sstatus / 2 % 2 ≡ 0
      → t.sepc + 4 < word_mod
      → syscall (trapped (t.sepc + 4) p) (in_kernel symbols t) ≡ done p' t'
      → p'.stack + 8192 < word_mod
      → p'.pagetable.root < word_mod
      → t'.hart.sstatus < word_mod
      → (u : Traps) × (usertrap syscall yeld symbols 8 time (some p) t
          ≡ done (prepared symbols t'.satp p', 2147483648 + p'.pagetable.root / 4096) u)
        × Leaving symbols p'.trapframe.epc t' u
  unfolding usertrap dispatch on_syscall
  usertrap-served {p'} {t'} linked user off next ran stack root word =
      let from_user : (bit_and t.hart.sstatus 256 == 0) ≡ true =
        ground (arith, spp_read t.hart.sstatus) in
      let quiet : interrupt_read t.hart ≡ false = interrupt_read_lem t.hart ∙ ground arith in
      let fits : ltb (t.sepc + 4) word_mod ≡ true = ground arith in
      let (u, left, leaving) = prepare_return-Leaving symbols p' t' linked stack word in
      (u, rw (from_user, quiet, fits, ran, left, root_word p' root) refl, leaving)

  -- A trap that is not a system call or a timer interrupt, that comes from supervisor mode, or that
  -- finds interrupts on, is a panic, whatever the handlers do.
  pub usertrap-refused :
      (scause : ℕ)
      → (t.hart.sstatus / 256 % 2 ≡ 1)
        ⊎ (t.hart.sstatus / 2 % 2 ≡ 1)
        ⊎ (scause ≢ 8) × (scause ≢ 2147483653)
      → usertrap syscall yeld symbols scause time (some p) t ≡ panic
  unfolding usertrap dispatch
  usertrap-refused scause h = ground (arith, spp_read t.hart.sstatus, interrupt_read_lem t.hart)
