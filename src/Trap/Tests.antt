-- ===== src/Trap/Tests.antt =====
-- A thread that leaves and comes back, and a timer interrupt in the kernel.
use rust_baremetal.Prelude.{◌≡◌, inl, refl, arith, if◌then◌else◌, ◌==◌}
use rust_baremetal.Trap.Trampoline.{Reg, number, Core, exec}
use rust_baremetal.Trap.Switch.{switch, Switched, switch-Switched}
use rust_baremetal.Trap.Kernelvec.{
  kernelvec_entry, kernelvec_exit, Returned, kernelvec-resumed, Callee, tp_callee,
}

-- The process's context is at 0x80300000, the scheduler's at 0x80310000.
abbrev process : Core
process = record {
  reg = λ r. if number r == 10 then 0x80300000 else if number r == 11 then 0x80310000 else number r;
  word = λ q. 7;
  satp = 0x80080300;
  sscratch = 0;
  sepc = 0x80201000;
  pc = 0x80202000;
}

abbrev scheduler : Core
scheduler = record (exec switch process) {
  reg = λ r. if number r == 10 then 0x80310000 else if number r == 11 then 0x80300000 else 99;
}

switch-Switched_example : Switched process (exec switch process)
switch-Switched_example = switch-Switched process (inl (omega arith))

abbrev entered : Core
entered = exec (kernelvec_entry 0x80203000 0x80204000) process

-- `kerneltrap` has used the registers that it may use.
abbrev handled : Core
handled = record entered {
  reg = λ r. if number r == 1 then 0x80204000 else if number r == 10 then 1 else entered.reg r;
}

handled-Callee : {r : Reg} → Callee r → handled.reg r ≡ entered.reg r
unfolding exec kernelvec_entry
handled-Callee tp_callee = refl
handled-Callee _ = refl

handled-Returned : Returned entered handled
unfolding exec kernelvec_entry
handled-Returned = record { stack = refl; callee = λ c. handled-Callee c; words = λ off h. refl }

kernelvec-resumed_example :
    ((r : Reg) → (exec kernelvec_exit handled).reg r ≡ process.reg r)
    × ((exec kernelvec_exit handled).pc ≡ handled.sepc)
kernelvec-resumed_example =
    kernelvec-resumed 0x80203000 0x80204000 process handled (omega arith) handled-Returned
