-- ===== src/Syscall/Tests.antt =====
-- A program that writes two letters.
use rust_baremetal.Prelude.{
  ℕ, ◌≡◌, refl, arith, Bool, true, false, List, [], ◌∷◌, ◌++◌, ltb, if◌then◌else◌,
}
use rust_baremetal.Machine.Bitmap.{bitmap}
use rust_baremetal.Machine.Outcome.{M, done, panic}
use rust_baremetal.Process.{Process, new}
use rust_baremetal.Virtmemory.PageTable.Map.{put}
use rust_baremetal.Virtmemory.UserSpace.{user_space, user_space-Shows}
use rust_baremetal.Virtmemory.Copy.Translate.{is_leaf}
use rust_baremetal.Syscall.{System, syscall}
use rust_baremetal.Syscall.Write.{text, write-sent}

abbrev one_page : ℕ → ℕ
one_page = put (λ _. 0) 0x10000 0x200c3417

abbrev ascii : List ℕ → Bool
ascii [] = true
ascii (x ∷ xs) = if ltb x 128 then ascii xs else false

abbrev program : Process
unfolding new
program =
    let p = new 1 (record { begin = 0x10000; size = 0x1000; root = 0x8030f000 }) in
    record p { trapframe = record p.trapframe { a7 = 16; a0 = 1; a1 = 0x10020; a2 = 2 } }

abbrev system : System bitmap
system = record { machine = user_space; sent = 0x3e ∷ [] }

abbrev none_else : Process → M (System bitmap) Process
none_else p = λ s. panic

write-sent_example : syscall bitmap ascii none_else none_else none_else none_else program system ≡ (
    if is_leaf (one_page program.trapframe.a1)
    then (if ascii (text bitmap one_page program system)
        then done
            (record program { trapframe = record program.trapframe { a0 = 0 } })
            (record system { sent = system.sent ++ text bitmap one_page program system })
        else panic)
    else panic)
unfolding program
write-sent_example =
    write-sent bitmap ascii none_else none_else none_else none_else one_page program system
      user_space-Shows refl refl (omega arith) (omega arith)
