-- ===== src/Trap/Trampoline/Saved.antt =====
-- What `uservec` saves, `userret` restores.
use rust_baremetal.Prelude.{ℕ, ◌+◌, ◌*◌, ◌≡◌, ◌∙◌, refl}
use rust_baremetal.Virtmemory.Pte.{trapframe}
use rust_baremetal.Trap.Trampoline.{Reg, ra, sp, tp, a0, number, Core, exec, uservec, userret}

-- The address of a user register in the trapframe: it has five words of the kernel, and then the
-- registers in the order of their numbers.
abbrev pub saved_at : Reg → ℕ
saved_at r = trapframe + (16 + 4 * number r)

saved-uservec :
    (link : ℕ) (c : Core) (r : Reg) → (exec (uservec link) c).word (saved_at r) ≡ c.reg r
unfolding exec uservec
saved-uservec link c ra = refl
saved-uservec link c _ = refl

restored-userret : (d : Core) (r : Reg) → (exec userret d).reg r ≡ d.word (saved_at r)
unfolding exec userret
restored-userret d ra = refl
restored-userret d _ = refl

left-userret : (d : Core) → ((exec userret d).pc ≡ d.sepc) × ((exec userret d).satp ≡ d.reg a0)
unfolding exec userret
left-userret d = (refl, refl)

-- What `uservec` leaves: every user register in its word of the trapframe, and the kernel's stack,
-- hart id, page table and trap handler taken from theirs.
pub record Entered (link : ℕ) (c e : Core) : Type 0 where
  pub saved : (r : Reg) → e.word (saved_at r) ≡ c.reg r
  pub satp : e.satp ≡ c.word trapframe
  pub stack : e.reg sp ≡ c.word (trapframe + 4)
  pub handler : e.pc ≡ c.word (trapframe + 8)
  pub hartid : e.reg tp ≡ c.word (trapframe + 16)
  pub return_to : e.reg ra ≡ link

-- `uservec` saves all 31 user registers and enters the trap handler with the kernel's page table,
-- stack and hart id.
pub uservec-Entered : (link : ℕ) (c : Core) → Entered link c (exec (uservec link) c)
unfolding exec uservec
uservec-Entered link c = record {
  saved = saved-uservec link c;
  satp = refl;
  stack = refl;
  handler = refl;
  hartid = refl;
  return_to = refl;
}

-- Where the kernel has left the word of a register in the trapframe as `uservec` saved it, `userret`
-- gives the program that register back as it was, and it returns to `sepc` with the page table that
-- came in `a0`.
pub userret-Restored :
    (link : ℕ) (c d : Core) (r : Reg)
    → d.word (saved_at r) ≡ (exec (uservec link) c).word (saved_at r)
    → ((exec userret d).reg r ≡ c.reg r)
      × ((exec userret d).pc ≡ d.sepc)
      × ((exec userret d).satp ≡ d.reg a0)
userret-Restored link c d r same =
    let (pc, satp) = left-userret d in
    (restored-userret d r ∙ (same ∙ saved-uservec link c r), pc, satp)
