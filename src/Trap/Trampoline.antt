-- ===== src/Trap/Trampoline.antt =====
-- `uservec` and `userret` of kernel/src/trap/trampoline.rs, instruction by instruction.
pub mod Saved
mod Tests
use rust_baremetal.Prelude.{ℕ, ◌+◌, ◌%◌, Bool, List, [], ◌∷◌, ◌++◌, ◌==◌, if◌then◌else◌}
use rust_baremetal.Prelude.Word.{word_mod}
use rust_baremetal.Virtmemory.Pte.{trapframe}

-- The registers x1 to x31.
pub data Reg : Type 0 where
  ra sp gp tp t0 t1 t2 s0 s1 a0 a1 a2 a3 a4 a5 a6 a7 s2 s3 s4 s5 s6 s7 s8 s9 s10 s11 t3 t4 t5 t6 :
      Reg

abbrev pub number : Reg → ℕ
number ra = 1
number sp = 2
number gp = 3
number tp = 4
number t0 = 5
number t1 = 6
number t2 = 7
number s0 = 8
number s1 = 9
number a0 = 10
number a1 = 11
number a2 = 12
number a3 = 13
number a4 = 14
number a5 = 15
number a6 = 16
number a7 = 17
number s2 = 18
number s3 = 19
number s4 = 20
number s5 = 21
number s6 = 22
number s7 = 23
number s8 = 24
number s9 = 25
number s10 = 26
number s11 = 27
number t3 = 28
number t4 = 29
number t5 = 30
number t6 = 31

-- The hart, and memory by aligned words at the addresses of the user's address space.
pub record Core : Type 0 where
  pub reg : Reg → ℕ
  pub word : ℕ → ℕ
  pub satp : ℕ
  pub sscratch : ℕ
  pub sepc : ℕ
  pub pc : ℕ

-- The instructions that are used; `jalr` and `call` link to the address that they carry, that of the
-- instruction behind them. A negative number that is added is its word. A fence changes nothing, since the model has no translation cache.
pub data Instr : Type 0 where
  sw lw : Reg → ℕ → Reg → Instr
  li : Reg → ℕ → Instr
  csrw_sscratch csrr_sscratch csrw_satp : Reg → Instr
  sfence_vma sret : Instr
  jalr : Reg → (link : ℕ) → Instr
  addi : Reg → Reg → ℕ → Instr
  call : (target link : ℕ) → Instr
  ret : Instr

abbrev pub update : (ℕ → ℕ) → ℕ → ℕ → ℕ → ℕ
update m p v q = if q == p then v else m q

abbrev pub set_reg : Reg → ℕ → Core → Core
set_reg r v c = record c { reg = λ q. if number q == number r then v else c.reg q }

unfoldable pub step : Instr → Core → Core
step (sw r off base) c = record c { word = update c.word (c.reg base + off) (c.reg r) }
step (lw r off base) c = set_reg r (c.word (c.reg base + off)) c
step (li r v) c = set_reg r v c
step (csrw_sscratch r) c = record c { sscratch = c.reg r }
step (csrr_sscratch r) c = set_reg r c.sscratch c
step (csrw_satp r) c = record c { satp = c.reg r }
step sfence_vma c = c
step sret c = record c { pc = c.sepc }
step (jalr r link) c = record (set_reg ra link c) { pc = c.reg r }
step (addi r base imm) c = set_reg r ((c.reg base + imm) % word_mod) c
step (call target link) c = record (set_reg ra link c) { pc = target }
step ret c = record c { pc = c.reg ra }

unfoldable pub exec : List Instr → Core → Core
unfolding step
exec [] c = c
exec (i ∷ is) c = exec is (step i c)

-- `uservec`, up to its call of `usertrap`; `link` is the address of the jump to `userret` behind it.
unfoldable pub uservec : (link : ℕ) → List Instr
uservec link =
    csrw_sscratch a0
    ∷ li a0 trapframe
    ∷ sw ra 20 a0
    ∷ sw sp 24 a0
    ∷ sw gp 28 a0
    ∷ sw tp 32 a0
    ∷ sw t0 36 a0
    ∷ sw t1 40 a0
    ∷ sw t2 44 a0
    ∷ sw s0 48 a0
    ∷ sw s1 52 a0
    ∷ sw a1 60 a0
    ∷ sw a2 64 a0
    ∷ sw a3 68 a0
    ∷ sw a4 72 a0
    ∷ sw a5 76 a0
    ∷ sw a6 80 a0
    ∷ sw a7 84 a0
    ∷ sw s2 88 a0
    ∷ sw s3 92 a0
    ∷ sw s4 96 a0
    ∷ sw s5 100 a0
    ∷ sw s6 104 a0
    ∷ sw s7 108 a0
    ∷ sw s8 112 a0
    ∷ sw s9 116 a0
    ∷ sw s10 120 a0
    ∷ sw s11 124 a0
    ∷ sw t3 128 a0
    ∷ sw t4 132 a0
    ∷ sw t5 136 a0
    ∷ sw t6 140 a0
    ∷ csrr_sscratch t0
    ∷ sw t0 56 a0
    ∷ lw sp 4 a0
    ∷ lw tp 16 a0
    ∷ lw t0 8 a0
    ∷ lw t1 0 a0
    ∷ sfence_vma
    ∷ csrw_satp t1
    ∷ sfence_vma
    ∷ jalr t0 link
    ∷ []

-- `userret`; the word for `satp` comes in `a0`.
unfoldable pub userret : List Instr
userret =
    sfence_vma
    ∷ csrw_satp a0
    ∷ sfence_vma
    ∷ li a0 trapframe
    ∷ lw ra 20 a0
    ∷ lw sp 24 a0
    ∷ lw gp 28 a0
    ∷ lw tp 32 a0
    ∷ lw t0 36 a0
    ∷ lw t1 40 a0
    ∷ lw t2 44 a0
    ∷ lw s0 48 a0
    ∷ lw s1 52 a0
    ∷ lw a1 60 a0
    ∷ lw a2 64 a0
    ∷ lw a3 68 a0
    ∷ lw a4 72 a0
    ∷ lw a5 76 a0
    ∷ lw a6 80 a0
    ∷ lw a7 84 a0
    ∷ lw s2 88 a0
    ∷ lw s3 92 a0
    ∷ lw s4 96 a0
    ∷ lw s5 100 a0
    ∷ lw s6 104 a0
    ∷ lw s7 108 a0
    ∷ lw s8 112 a0
    ∷ lw s9 116 a0
    ∷ lw s10 120 a0
    ∷ lw s11 124 a0
    ∷ lw t3 128 a0
    ∷ lw t4 132 a0
    ∷ lw t5 136 a0
    ∷ lw t6 140 a0
    ∷ lw a0 56 a0
    ∷ sret
    ∷ []
