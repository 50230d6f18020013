-- ===== src/Trap/Kerneltrap/Tests.antt =====
-- A timer interrupt while the scheduler waits, and one that comes too late.
use rust_baremetal.Prelude.{◌≡◌, refl, arith, false, none, inr}
use rust_baremetal.Machine.Outcome.{M, done, panic}
use rust_baremetal.Process.{Process}
use rust_baremetal.Trap.User.{Traps}
use rust_baremetal.Trap.Kerneltrap.{
  yield_current, kerneltrap, kerneltrap-resumes, kerneltrap-refused,
}

abbrev waiting : Traps
waiting = record {
  hart = record { sstatus = 0x120; interrupt_off_stack = 0; interrupt_prev_state = false };
  stvec = 0x80201234;
  sepc = 0x80202000;
  satp = 0x80080300;
  stimecmp = 0;
}

abbrev stays : Process → M Traps Process
stays p = done p

kerneltrap-resumes_example :
    (u : Traps) × (kerneltrap stays 0x80000005 5000 none waiting ≡ done none u)
    × (u.sepc ≡ waiting.sepc)
    × (u.hart.sstatus ≡ waiting.hart.sstatus)
    × (u.stimecmp ≡ 1005000)
    × (u.hart.interrupt_off_stack ≡ 0)
unfolding yield_current
kerneltrap-resumes_example =
    kerneltrap-resumes stays 5000 none waiting {current' = none}
      {t' = record waiting { stimecmp = 1005000 }} refl refl (omega arith) refl

kerneltrap-refused_example : kerneltrap stays 0x80000005 4294000000 none waiting ≡ panic
kerneltrap-refused_example =
    kerneltrap-refused stays 0x80000005 4294000000 none waiting (inr (inr (inr (omega arith))))
