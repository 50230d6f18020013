-- ===== src/Trap/Kerneltrap.antt =====
-- `kerneltrap` of kernel/src/trap.rs: a timer interrupt in the kernel. What `yeld` does is given.
mod Tests
use rust_baremetal.Prelude.{
  ℕ, ◌+◌, ◌*◌, ◌/◌, ◌%◌, ◌≤◌, ◌<◌, ◌≡◌, ◌≢◌, ◌⊎◌, refl, arith, Bool, true, false, not, Option, none,
  some, bit_and, ltb, ◌==◌, if◌then◌else◌,
}
use rust_baremetal.Prelude.Word.{word_mod}
use rust_baremetal.Hart.{Hart, interrupt_read}
use rust_baremetal.Machine.{add_usize}
use rust_baremetal.Machine.Outcome.{M, done, panic, pure, ◌>>=◌, ◌>>◌}
use rust_baremetal.Process.{Process}
use rust_baremetal.Trap.User.{Traps, sstatus_spp}
use rust_baremetal.Trap.User.Served.{spp_read, interrupt_read_lem}

module _ (yeld : Process → M Traps Process) where
  -- The running process, if there is one, yields.
  pub yield_current : Option Process → M Traps (Option Process)
  yield_current none = pure none
  yield_current (some p) = do p ← yeld p; pure (some p)

  pub kernel_timer : (time : ℕ) → Option Process → M Traps (Option Process)
  unfolding yield_current
  kernel_timer time current = do
    next ← add_usize time 1000000
    _ ← λ t. done tt (record t { stimecmp = next })
    yield_current current

  -- It returns the running process.
  pub kerneltrap : (scause time : ℕ) → Option Process → M Traps (Option Process)
  unfolding kernel_timer
  kerneltrap scause time current = do
    sepc ← λ t. done t.sepc t
    sstatus ← λ t. done t.hart.sstatus t
    _ ← λ t. if bit_and sstatus sstatus_spp == 0 then panic else done tt t
    _ ← λ t. if interrupt_read t.hart then panic else done tt t
    current ← if scause == 0x80000005 then kernel_timer time current else (λ t. panic)
    _ ← λ t. done tt (record t { sepc = sepc; hart = record t.hart { sstatus = sstatus } })
    pure current

  -- A timer interrupt in the kernel with interrupts off, whose `yeld` returns if a process runs, ends
  -- with the program counter and the status word of the interrupted code, whatever other processes
  -- have done to them in between.
  pub kerneltrap-resumes :
      (time : ℕ) (current : Option Process) (t : Traps) {current' : Option Process} {t' : Traps}
      → t.hart.sstatus / 256 % 2 ≡ 1
      → t.hart.sstatus / 2 % 2 ≡ 0
      → time + 1000000 < word_mod
      → yield_current current (record t { stimecmp = time + 1000000 }) ≡ done current' t'
      → (u : Traps) × (kerneltrap 0x80000005 time current t ≡ done current' u)
        × (u.sepc ≡ t.sepc)
        × (u.hart.sstatus ≡ t.hart.sstatus)
        × (u.stimecmp ≡ t'.stimecmp)
        × (u.hart.interrupt_off_stack ≡ t'.hart.interrupt_off_stack)
  unfolding kerneltrap kernel_timer
  kerneltrap-resumes time current t {current'} {t'} kernel off fits ran =
      let from_kernel : (bit_and t.hart.sstatus 256 == 0) ≡ false =
        ground (arith, spp_read t.hart.sstatus) in
      let quiet : interrupt_read t.hart ≡ false = ground (arith, interrupt_read_lem t.hart) in
      let next : ltb (time + 1000000) word_mod ≡ true = ground arith in
      (
        record t' { sepc = t.sepc; hart = record t'.hart { sstatus = t.hart.sstatus } },
        rw (from_kernel, quiet, next, ran) refl,
        refl,
        refl,
        refl,
        refl,
      )

  -- Any other trap in the kernel is a panic, and so is one from user mode, with interrupts on, or
  -- so late that the time of the next timer interrupt does not fit a word.
  pub kerneltrap-refused :
      (scause time : ℕ) (current : Option Process) (t : Traps)
      → (t.hart.sstatus / 256 % 2 ≡ 0)
        ⊎ (t.hart.sstatus / 2 % 2 ≡ 1)
        ⊎ (scause ≢ 2147483653)
        ⊎ (word_mod ≤ time + 1000000)
      → kerneltrap scause time current t ≡ panic
  unfolding kerneltrap kernel_timer
  kerneltrap-refused scause time current t h =
      ground (arith, spp_read t.hart.sstatus, interrupt_read_lem t.hart)
