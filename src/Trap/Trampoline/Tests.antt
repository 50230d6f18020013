-- ===== src/Trap/Trampoline/Tests.antt =====
-- A trap of a program, and the return to it.
use rust_baremetal.Prelude.{◌+◌, ◌≡◌, refl}
use rust_baremetal.Trap.Trampoline.{a0, a1, number, Core, exec, uservec, userret}
use rust_baremetal.Trap.Trampoline.Saved.{Entered, uservec-Entered, userret-Restored}

-- Each register holds its number.
abbrev user : Core
user = record {
  reg = λ r. number r;
  word = λ q. 0x80200000 + q;
  satp = 0x80080300;
  sscratch = 0;
  sepc = 0x10040;
  pc = 0xffffe000;
}

-- The kernel runs, and returns behind the system call.
abbrev kernel : Core
kernel = record (exec (uservec 0x80201000) user) { reg = λ r. 77; sepc = 0x10044 }

uservec-Entered_example : Entered 0x80201000 user (exec (uservec 0x80201000) user)
uservec-Entered_example = uservec-Entered 0x80201000 user

userret-Restored_example :
    ((exec userret kernel).reg a1 ≡ user.reg a1)
    × ((exec userret kernel).pc ≡ kernel.sepc)
    × ((exec userret kernel).satp ≡ kernel.reg a0)
userret-Restored_example = userret-Restored 0x80201000 user kernel a1 refl
