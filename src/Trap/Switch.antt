-- ===== src/Trap/Switch.antt =====
-- `switch` of kernel/src/process.rs, instruction by instruction.
use rust_baremetal.Prelude.{
  ℕ, ◌+◌, ◌≤◌, ◌<◌, ◌≡◌, ◌∙◌, ◌⊎◌, refl, sym, ap, arith, false, List, [], ◌∷◌, ◌==◌,
}
use rust_baremetal.Trap.Trampoline.{
  Reg, ra, sp, s0, s1, a0, a1, s2, s3, s4, s5, s6, s7, s8, s9, s10, s11, Core, Instr, sw, lw, ret,
  exec,
}
use rust_baremetal.Trap.Frame.{==_base}

-- The context that is left is at `a0`, the one that is entered at `a1`.
unfoldable pub switch : List Instr
switch =
    sw ra 0 a0
    ∷ sw sp 4 a0
    ∷ sw s0 8 a0
    ∷ sw s1 12 a0
    ∷ sw s2 16 a0
    ∷ sw s3 20 a0
    ∷ sw s4 24 a0
    ∷ sw s5 28 a0
    ∷ sw s6 32 a0
    ∷ sw s7 36 a0
    ∷ sw s8 40 a0
    ∷ sw s9 44 a0
    ∷ sw s10 48 a0
    ∷ sw s11 52 a0
    ∷ lw ra 0 a1
    ∷ lw sp 4 a1
    ∷ lw s0 8 a1
    ∷ lw s1 12 a1
    ∷ lw s2 16 a1
    ∷ lw s3 20 a1
    ∷ lw s4 24 a1
    ∷ lw s5 28 a1
    ∷ lw s6 32 a1
    ∷ lw s7 36 a1
    ∷ lw s8 40 a1
    ∷ lw s9 44 a1
    ∷ lw s10 48 a1
    ∷ lw s11 52 a1
    ∷ ret
    ∷ []

-- The registers that a context has, and where.
pub data Kept : Reg → ℕ → Type 0 where
  ra_kept : Kept ra 0
  sp_kept : Kept sp 4
  s0_kept : Kept s0 8
  s1_kept : Kept s1 12
  s2_kept : Kept s2 16
  s3_kept : Kept s3 20
  s4_kept : Kept s4 24
  s5_kept : Kept s5 28
  s6_kept : Kept s6 32
  s7_kept : Kept s7 36
  s8_kept : Kept s8 40
  s9_kept : Kept s9 44
  s10_kept : Kept s10 48
  s11_kept : Kept s11 52

-- A word that is none of the context at `b`.
abbrev pub Outside : ℕ → ℕ → Type 0
Outside b q = (q < b) ⊎ (b + 56 ≤ q)

saved-switch :
    {r : Reg} {off : ℕ} (c : Core) → Kept r off → (exec switch c).word (c.reg a0 + off) ≡ c.reg r
unfolding exec switch
saved-switch c ra_kept = simp ==_base refl
saved-switch c _ = simp ==_base refl

Kept-offset : {r : Reg} {off : ℕ} → Kept r off → off + 4 ≤ 56
Kept-offset ra_kept = omega arith
Kept-offset _ = omega arith

other-switch : (c : Core) (q : ℕ) → Outside (c.reg a0) q → (exec switch c).word q ≡ c.word q
unfolding exec switch
other-switch c q h =
    let apart : (k : ℕ) → k < 56 → (q == c.reg a0 + k) ≡ false = λ k l. ground arith in
    rw
      (
        apart 0 (omega arith),
        apart 4 (omega arith),
        apart 8 (omega arith),
        apart 12 (omega arith),
        apart 16 (omega arith),
        apart 20 (omega arith),
        apart 24 (omega arith),
        apart 28 (omega arith),
        apart 32 (omega arith),
        apart 36 (omega arith),
        apart 40 (omega arith),
        apart 44 (omega arith),
        apart 48 (omega arith),
        apart 52 (omega arith),
      )
      refl

loaded-switch :
    {r : Reg} {off : ℕ} (c : Core)
    → Kept r off
    → (exec switch c).reg r ≡ (exec switch c).word (c.reg a1 + off)
unfolding exec switch
loaded-switch c ra_kept = refl
loaded-switch c _ = refl

entered-switch : (c : Core) → (exec switch c).pc ≡ (exec switch c).word (c.reg a1 + 0)
unfolding exec switch
entered-switch c = refl

-- The two contexts do not meet.
abbrev pub Apart : Core → Type 0
Apart c = (c.reg a0 + 56 ≤ c.reg a1) ⊎ (c.reg a1 + 56 ≤ c.reg a0)

pub record Switched (c e : Core) : Type 0 where
  pub saved : {r : Reg} {off : ℕ} → Kept r off → e.word (c.reg a0 + off) ≡ c.reg r
  pub entered : {r : Reg} {off : ℕ} → Kept r off → e.reg r ≡ c.word (c.reg a1 + off)
  pub pc : e.pc ≡ c.word (c.reg a1)
  pub rest : (q : ℕ) → Outside (c.reg a0) q → e.word q ≡ c.word q

-- `switch` between two contexts that do not meet saves the return address, the stack and the
-- callee's registers in the first, loads them from the second, goes to the address of the second,
-- and writes no other word.
pub switch-Switched : (c : Core) → Apart c → Switched c (exec switch c)
switch-Switched c apart =
    let second : (off : ℕ) → off + 4 ≤ 56 → Outside (c.reg a0) (c.reg a1 + off) =
      λ off h. grind arith in
    record {
      saved = λ kept. saved-switch c kept;
      entered = λ {r} {off} kept.
          loaded-switch c kept ∙ other-switch c (c.reg a1 + off) (second off (Kept-offset kept));
      pc =
          entered-switch c
          ∙ (other-switch c (c.reg a1 + 0) (second 0 (omega arith))
              ∙ ap (λ n. c.word n) (omega arith));
      rest = λ q h. other-switch c q h;
    }

-- A thread that has left with `switch` goes on where it was: when another thread enters its context
-- again, and the words of the context are as they were left, it returns from its own call, with its
-- stack and the registers that a callee keeps.
pub switch-resumed :
    (c d : Core)
    → d.reg a1 ≡ c.reg a0
    → Apart d
    → ((off : ℕ) → off < 56 → d.word (c.reg a0 + off) ≡ (exec switch c).word (c.reg a0 + off))
    → ((exec switch d).pc ≡ c.reg ra)
      × ((r : Reg) (off : ℕ) → Kept r off → (exec switch d).reg r ≡ c.reg r)
switch-resumed c d back apart same =
    let at : (off : ℕ) → d.word (d.reg a1 + off) ≡ d.word (c.reg a0 + off) =
      λ off. ap (λ b. d.word (b + off)) back in
    let kept_all : (r : Reg) (off : ℕ) → Kept r off → (exec switch d).reg r ≡ c.reg r =
      λ r off kept.
        (switch-Switched d apart).entered kept
        ∙ (at off ∙ (same off (omega (arith, Kept-offset kept)) ∙ saved-switch c kept)) in
    (entered-switch d ∙ (sym (loaded-switch d ra_kept) ∙ kept_all ra 0 ra_kept), kept_all)
