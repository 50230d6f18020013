-- ===== src/Syscall.antt =====
-- The dispatch of system calls of kernel/src/kernel/syscall.rs, and `sys_write` of
-- kernel/src/kernel/syscall/sys_file.rs. The handlers that work on processes are given.
pub mod Proc
pub mod Write
mod Tests
use rust_baremetal.Prelude.{ℕ, Bool, not, List, ◌==◌, if◌then◌else◌}
use rust_baremetal.Machine.{Machine, Cmd}
use rust_baremetal.Machine.Outcome.{
  M, Run, done, err, panic, out_of_fuel, deadlock, pure, ◌>>=◌, ◌>>◌, unwrap,
}
use rust_baremetal.Machine.Heap.{HeapAllocator}
use rust_baremetal.Process.{Process, Trapframe}
use rust_baremetal.Virtmemory.Copy.{copy_in_cont}
use rust_baremetal.Uart.{uart_print}

abbrev sys_fork_number : ℕ
sys_fork_number = 1

abbrev sys_exit_number : ℕ
sys_exit_number = 2

abbrev sys_wait_number : ℕ
sys_wait_number = 3

abbrev sys_exec_number : ℕ
sys_exec_number = 7

abbrev sys_write_number : ℕ
sys_write_number = 16

module _ (H : HeapAllocator) where
  -- The machine, and what has been sent to the port.
  pub record System : Type 0 where
    pub machine : Machine H
    pub sent : List ℕ

  abbrev pub lifted : {A : Type 0} → Run (Machine H) A → M System A
  lifted (done a m) = λ s. done a (record s { machine = m })
  lifted (err m) = λ s. err (record s { machine = m })
  lifted panic = λ s. panic
  lifted out_of_fuel = λ s. out_of_fuel
  lifted deadlock = λ s. deadlock

  -- A command on the machine.
  abbrev pub on_machine : {A : Type 0} → Cmd H A → M System A
  on_machine c = λ s. lifted (c s.machine) s

  -- `from_utf8` says which bytes are valid text.
  pub sys_write : (from_utf8 : List ℕ → Bool) → Process → M System Process
  sys_write from_utf8 proc = do
    let fd = proc.trapframe.a0
    let addr = proc.trapframe.a1
    let size = proc.trapframe.a2
    _ ← λ s. if not (fd == 1) then panic else done tt s
    bytes ← on_machine (unwrap (copy_in_cont H proc.pagetable.root addr size))
    _ ← λ s. if from_utf8 bytes then done tt s else panic
    _ ← λ s. done tt (record s { sent = uart_print bytes s.sent })
    pure (record proc { trapframe = record proc.trapframe { a0 = 0 } })

  module _ (from_utf8 : List ℕ → Bool)
      (sys_fork sys_exec sys_wait sys_exit : Process → M System Process) where
    pub syscall : Process → M System Process
    unfolding sys_write
    syscall proc =
        let sys_num = proc.trapframe.a7 in
        if sys_num == sys_write_number
        then sys_write from_utf8 proc
        else if sys_num == sys_fork_number
        then sys_fork proc
        else if sys_num == sys_exec_number
        then sys_exec proc
        else if sys_num == sys_wait_number
        then sys_wait proc
        else if sys_num == sys_exit_number
        then sys_exit proc
        else (λ s. panic)
