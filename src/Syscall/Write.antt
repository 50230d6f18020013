-- ===== src/Syscall/Write.antt =====
-- What a program writes is what is sent.
use rust_baremetal.Prelude.{
  ℕ, ◌+◌, ◌%◌, ◌≤◌, ◌∙◌, ap, sym, ◌<◌, ◌≡◌, inl, inr, refl, Bool, true, List, ◌++◌, ◌==◌, ==_iff,
  Bool-cases, if◌then◌else◌,
}
use rust_baremetal.Prelude.Word.{word_mod}
use rust_baremetal.Machine.Outcome.{M, done, panic}
use rust_baremetal.Machine.Heap.{HeapAllocator}
use rust_baremetal.Process.{Process}
use rust_baremetal.Virtmemory.PageTable.Map.{Shows}
use rust_baremetal.Virtmemory.Copy.Translate.{is_leaf}
use rust_baremetal.Virtmemory.Copy.UserBytes.{user_bytes, user_bytes-bytes}
use rust_baremetal.Virtmemory.Copy.Roundtrip.{copy_in_cont-bytes, copy_in_cont-none}
use rust_baremetal.Uart.Writer.{uart_print-append}
use rust_baremetal.Syscall.{System, sys_write, syscall}

-- The bytes that the program points to, where its address space is `f`.
abbrev pub text : (H : HeapAllocator) → (ℕ → ℕ) → Process → System H → List ℕ
text H f proc s = user_bytes f s.machine.mem proc.trapframe.a1 proc.trapframe.a2

module _ (H : HeapAllocator) (from_utf8 : List ℕ → Bool)
    (sys_fork sys_exec sys_wait sys_exit : Process → M (System H) Process) (f : ℕ → ℕ)
    (proc : Process) (s : System H) where
  -- The system call to write to the standard output, of bytes within one page of the program: it
  -- sends the program's bytes from its address on, in order, if the page is mapped and they are
  -- valid text, returns 0 to the program, and changes nothing else; it is a panic otherwise.
  pub write-sent :
      Shows H proc.pagetable.root f s.machine
      → proc.trapframe.a7 ≡ 16
      → proc.trapframe.a0 ≡ 1
      → proc.trapframe.a1 < word_mod
      → proc.trapframe.a1 % 4096 + proc.trapframe.a2 ≤ 4096
      → syscall H from_utf8 sys_fork sys_exec sys_wait sys_exit proc s ≡ (
          if is_leaf (f proc.trapframe.a1)
          then (if from_utf8 (text H f proc s)
              then done
                  (record proc { trapframe = record proc.trapframe { a0 = 0 } })
                  (record s { sent = s.sent ++ text H f proc s })
              else panic)
          else panic)
  unfolding syscall sys_write
  write-sent shows number fd fits inside =
      let write : (proc.trapframe.a7 == 16) ≡ true = (==_iff _ 16).1 number in
      let out : (proc.trapframe.a0 == 1) ≡ true = (==_iff _ 1).1 fd in
      elim (Bool-cases (is_leaf (f proc.trapframe.a1))) [
        | inl leaf ↦
            let ran =
              copy_in_cont-bytes H f s.machine proc.trapframe.a1 shows fits proc.trapframe.a2 leaf
              ∙ ap (λ ys. done ys s.machine)
                  (sym (
                    user_bytes-bytes H f s.machine shows proc.trapframe.a2 proc.trapframe.a1 fits
                      inside)) in
            elim (Bool-cases (from_utf8 (text H f proc s))) [
              | inl valid ↦
                  rw (write, out, ran, leaf, valid, uart_print-append (text H f proc s) s.sent) refl
              | inr invalid ↦ rw (write, out, ran, leaf, invalid) refl
            ]
        | inr no_leaf ↦
            rw
              (
                write,
                out,
                copy_in_cont-none H f s.machine proc.trapframe.a1 shows fits proc.trapframe.a2
                    no_leaf,
                no_leaf,
              )
              refl
      ]
