-- ===== src/Trap/Kernelvec.antt =====
-- `kernelvec` of kernel/src/trap.rs, instruction by instruction: what comes before its call of
-- `kerneltrap`, and what comes behind it.
use rust_baremetal.Prelude.{ℕ, ◌+◌, ◌%◌, ◌<◌, ◌≡◌, ◌∙◌, refl, ap, arith, List, [], ◌∷◌}
use rust_baremetal.Prelude.Word.{word_mod}
use rust_baremetal.Trap.Trampoline.{
  Reg, ra, sp, gp, tp, t0, t1, t2, s0, s1, a0, a1, a2, a3, a4, a5, a6, a7, s2, s3, s4, s5, s6, s7,
  s8, s9, s10, s11, t3, t4, t5, t6, Core, Instr, sw, lw, addi, call, sret, exec,
}
use rust_baremetal.Trap.Frame.{==_base}

-- Up to the call; `kerneltrap` is the address of that function, `link` the one behind the call.
unfoldable pub kernelvec_entry : (kerneltrap link : ℕ) → List Instr
kernelvec_entry kerneltrap link =
    addi sp sp 0xffffff80
    ∷ sw ra 0 sp
    ∷ sw gp 8 sp
    ∷ sw tp 12 sp
    ∷ sw t0 16 sp
    ∷ sw t1 20 sp
    ∷ sw t2 24 sp
    ∷ sw a0 36 sp
    ∷ sw a1 40 sp
    ∷ sw a2 44 sp
    ∷ sw a3 48 sp
    ∷ sw a4 52 sp
    ∷ sw a5 56 sp
    ∷ sw a6 60 sp
    ∷ sw a7 64 sp
    ∷ sw t3 108 sp
    ∷ sw t4 112 sp
    ∷ sw t5 116 sp
    ∷ sw t6 120 sp
    ∷ call kerneltrap link
    ∷ []

-- Behind the call.
unfoldable pub kernelvec_exit : List Instr
kernelvec_exit =
    lw ra 0 sp
    ∷ lw gp 8 sp
    ∷ lw t0 16 sp
    ∷ lw t1 20 sp
    ∷ lw t2 24 sp
    ∷ lw a0 36 sp
    ∷ lw a1 40 sp
    ∷ lw a2 44 sp
    ∷ lw a3 48 sp
    ∷ lw a4 52 sp
    ∷ lw a5 56 sp
    ∷ lw a6 60 sp
    ∷ lw a7 64 sp
    ∷ lw t3 108 sp
    ∷ lw t4 112 sp
    ∷ lw t5 116 sp
    ∷ lw t6 120 sp
    ∷ addi sp sp 128
    ∷ sret
    ∷ []

-- The registers that are restored from the stack, and where.
pub data OnStack : Reg → ℕ → Type 0 where
  ra_pushed : OnStack ra 0
  gp_pushed : OnStack gp 8
  t0_pushed : OnStack t0 16
  t1_pushed : OnStack t1 20
  t2_pushed : OnStack t2 24
  a0_pushed : OnStack a0 36
  a1_pushed : OnStack a1 40
  a2_pushed : OnStack a2 44
  a3_pushed : OnStack a3 48
  a4_pushed : OnStack a4 52
  a5_pushed : OnStack a5 56
  a6_pushed : OnStack a6 60
  a7_pushed : OnStack a7 64
  t3_pushed : OnStack t3 108
  t4_pushed : OnStack t4 112
  t5_pushed : OnStack t5 116
  t6_pushed : OnStack t6 120

-- The registers that are not: a function keeps them, as it keeps the stack pointer.
pub data Callee : Reg → Type 0 where
  tp_callee : Callee tp
  s0_callee : Callee s0
  s1_callee : Callee s1
  s2_callee : Callee s2
  s3_callee : Callee s3
  s4_callee : Callee s4
  s5_callee : Callee s5
  s6_callee : Callee s6
  s7_callee : Callee s7
  s8_callee : Callee s8
  s9_callee : Callee s9
  s10_callee : Callee s10
  s11_callee : Callee s11

-- The frame of `kernelvec` on the stack.
abbrev pub frame : Core → ℕ
frame c = (c.reg sp + 0xffffff80) % word_mod

OnStack-entry :
    (kerneltrap link : ℕ) (c : Core) {r : Reg} {off : ℕ}
    → OnStack r off
    → (exec (kernelvec_entry kerneltrap link) c).word (frame c + off) ≡ c.reg r
unfolding exec kernelvec_entry
OnStack-entry kerneltrap link c ra_pushed = simp ==_base refl
OnStack-entry kerneltrap link c _ = simp ==_base refl

stack-entry :
    (kerneltrap link : ℕ) (c : Core) → (exec (kernelvec_entry kerneltrap link) c).reg sp ≡ frame c
unfolding exec kernelvec_entry
stack-entry kerneltrap link c = refl

Callee-entry :
    (kerneltrap link : ℕ) (c : Core) {r : Reg}
    → Callee r
    → (exec (kernelvec_entry kerneltrap link) c).reg r ≡ c.reg r
unfolding exec kernelvec_entry
Callee-entry kerneltrap link c tp_callee = refl
Callee-entry kerneltrap link c _ = refl

OnStack-exit :
    (d : Core) {r : Reg} {off : ℕ}
    → OnStack r off
    → (exec kernelvec_exit d).reg r ≡ d.word (d.reg sp + off)
unfolding exec kernelvec_exit
OnStack-exit d ra_pushed = refl
OnStack-exit d _ = refl

Callee-exit : (d : Core) {r : Reg} → Callee r → (exec kernelvec_exit d).reg r ≡ d.reg r
unfolding exec kernelvec_exit
Callee-exit d tp_callee = refl
Callee-exit d _ = refl

left-exit :
    (d : Core)
    → ((exec kernelvec_exit d).pc ≡ d.sepc)
      × ((exec kernelvec_exit d).reg sp ≡ (d.reg sp + 128) % word_mod)
unfolding exec kernelvec_exit
left-exit d = (refl, refl)

-- `kerneltrap` has returned: it has kept the stack and the registers that a function keeps, and the
-- words of the frame below it.
pub record Returned (e d : Core) : Type 0 where
  pub stack : d.reg sp ≡ e.reg sp
  pub callee : {r : Reg} → Callee r → d.reg r ≡ e.reg r
  pub words : (off : ℕ) → off < 128 → d.word (e.reg sp + off) ≡ e.word (e.reg sp + off)

OnStack-offset : {r : Reg} {off : ℕ} → OnStack r off → off < 128
OnStack-offset ra_pushed = omega arith
OnStack-offset _ = omega arith

every_register :
    (P : Reg → Type 0)
    → P sp
    → ((r : Reg) (off : ℕ) → OnStack r off → P r)
    → ((r : Reg) → Callee r → P r)
    → (r : Reg) → P r
every_register P stack pushed callee sp = stack
every_register P stack pushed callee ra = pushed ra _ ra_pushed
every_register P stack pushed callee gp = pushed gp _ gp_pushed
every_register P stack pushed callee tp = callee tp tp_callee
every_register P stack pushed callee t0 = pushed t0 _ t0_pushed
every_register P stack pushed callee t1 = pushed t1 _ t1_pushed
every_register P stack pushed callee t2 = pushed t2 _ t2_pushed
every_register P stack pushed callee s0 = callee s0 s0_callee
every_register P stack pushed callee s1 = callee s1 s1_callee
every_register P stack pushed callee a0 = pushed a0 _ a0_pushed
every_register P stack pushed callee a1 = pushed a1 _ a1_pushed
every_register P stack pushed callee a2 = pushed a2 _ a2_pushed
every_register P stack pushed callee a3 = pushed a3 _ a3_pushed
every_register P stack pushed callee a4 = pushed a4 _ a4_pushed
every_register P stack pushed callee a5 = pushed a5 _ a5_pushed
every_register P stack pushed callee a6 = pushed a6 _ a6_pushed
every_register P stack pushed callee a7 = pushed a7 _ a7_pushed
every_register P stack pushed callee s2 = callee s2 s2_callee
every_register P stack pushed callee s3 = callee s3 s3_callee
every_register P stack pushed callee s4 = callee s4 s4_callee
every_register P stack pushed callee s5 = callee s5 s5_callee
every_register P stack pushed callee s6 = callee s6 s6_callee
every_register P stack pushed callee s7 = callee s7 s7_callee
every_register P stack pushed callee s8 = callee s8 s8_callee
every_register P stack pushed callee s9 = callee s9 s9_callee
every_register P stack pushed callee s10 = callee s10 s10_callee
every_register P stack pushed callee s11 = callee s11 s11_callee
every_register P stack pushed callee t3 = pushed t3 _ t3_pushed
every_register P stack pushed callee t4 = pushed t4 _ t4_pushed
every_register P stack pushed callee t5 = pushed t5 _ t5_pushed
every_register P stack pushed callee t6 = pushed t6 _ t6_pushed

-- A trap in the kernel is invisible to the code that it interrupts: `kernelvec` hands every one of
-- the 31 registers back as it was and returns to `sepc`, when `kerneltrap` keeps what the calling
-- convention asks of it.
pub kernelvec-resumed :
    (kerneltrap link : ℕ) (c d : Core)
    → c.reg sp < word_mod
    → Returned (exec (kernelvec_entry kerneltrap link) c) d
    → ((r : Reg) → (exec kernelvec_exit d).reg r ≡ c.reg r) × ((exec kernelvec_exit d).pc ≡ d.sepc)
kernelvec-resumed kerneltrap link c d small back =
    let stack : d.reg sp ≡ frame c = back.stack ∙ stack-entry kerneltrap link c in
    let e = exec (kernelvec_entry kerneltrap link) c in
    (
      every_register (λ r. (exec kernelvec_exit d).reg r ≡ c.reg r)
          ((left-exit d).1 ∙ (ap (λ n. (n + 128) % word_mod) stack ∙ omega arith))
          (λ r off p.
            OnStack-exit d p
            ∙ (ap (λ b. d.word (b + off)) back.stack
                ∙ (back.words off (OnStack-offset p)
                    ∙ (ap (λ b. e.word (b + off)) (stack-entry kerneltrap link c)
                        ∙ OnStack-entry kerneltrap link c p))))
          (λ r p. Callee-exit d p ∙ (back.callee p ∙ Callee-entry kerneltrap link c p)),
      (left-exit d).0,
    )
