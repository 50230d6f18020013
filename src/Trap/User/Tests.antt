-- ===== src/Trap/User/Tests.antt =====
-- A system call that returns 0.
use rust_baremetal.Prelude.{◌+◌, ◌/◌, ◌≡◌, refl, arith, false, some, inr}
use rust_baremetal.Hart.{interrupt_on}
use rust_baremetal.Machine.Outcome.{M, done, panic}
use rust_baremetal.Process.{Process, new, running}
use rust_baremetal.Trap.User.{Traps, Symbols, prepare_return, usertrap}
use rust_baremetal.Trap.User.Return.{prepared, Leaving, IsLinked, prepare_return-Leaving}
use rust_baremetal.Trap.User.Served.{trapped, in_kernel, usertrap-served, usertrap-refused}

abbrev symbols : Symbols
symbols = record {
  trampoline_text = 0x80210000;
  uservec_addr = 0x80210000;
  usertrap_addr = 0x80205678;
  kernelvec_addr = 0x80201234;
}

abbrev shell : Process
unfolding new
shell = record (new 1 (record { begin = 0x10000; size = 0x3000; root = 0x80301000 })) {
  pid = some 1;
  state = running;
  stack = 0xffff0000;
}

abbrev traps : Traps
traps = record {
  hart = record { sstatus = 32; interrupt_off_stack = 0; interrupt_prev_state = false };
  stvec = 0xffffe000;
  sepc = 0x10040;
  satp = 0x80080300;
  stimecmp = 0;
}

abbrev handler : Process → M Traps Process
handler p = done (record p { trapframe = record p.trapframe { a0 = 0 } })

abbrev served : Process
served = record (trapped 0x10044 shell) {
  trapframe = record (trapped 0x10044 shell).trapframe { a0 = 0 };
}

symbols-IsLinked : IsLinked symbols
symbols-IsLinked = record { above = omega arith; inside = omega arith }

prepare_return-Leaving_example :
    (u : Traps) × (prepare_return symbols shell traps ≡ done (prepared symbols traps.satp shell) u)
    × Leaving symbols shell.trapframe.epc traps u
unfolding shell
prepare_return-Leaving_example =
    prepare_return-Leaving symbols shell traps symbols-IsLinked (omega arith) (omega arith)

usertrap-served_example :
    (u : Traps) × (usertrap handler handler symbols 8 0 (some shell) traps
      ≡ done (prepared symbols traps.satp served, 2147483648 + served.pagetable.root / 4096) u)
    × Leaving symbols served.trapframe.epc (in_kernel symbols traps) u
unfolding shell interrupt_on
usertrap-served_example =
    usertrap-served handler handler symbols 0 shell traps {p' = served}
      {t' = in_kernel symbols traps} symbols-IsLinked refl refl (omega arith) refl (omega arith)
      (omega arith) (omega arith)

usertrap-refused_example : usertrap handler handler symbols 2 0 (some shell) traps ≡ panic
usertrap-refused_example =
    usertrap-refused handler handler symbols 0 shell traps 2
      (inr (inr (λ e. omega (arith, e), λ e. omega (arith, e))))
