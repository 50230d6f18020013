-- ===== src/Virtmemory/Tests.antt =====
-- Runs of the page table on a small heap, and instances of its theorems.
use rust_baremetal.Prelude.{ℕ, ◌+◌, ◌≡◌, ◌⊎◌, refl, arith, true, false, ltb}
use rust_baremetal.Hart.{Hart}
use rust_baremetal.Machine.{Machine}
use rust_baremetal.Machine.Bitmap.{bitmap}
use rust_baremetal.Machine.Outcome.{done, panic, Ends}
use rust_baremetal.Machine.Frames.{IsPage, Exhausted}
use rust_baremetal.Machine.Memory.{read_word}
use rust_baremetal.Virtmemory.Pte.{from_word, to_word}
use rust_baremetal.Virtmemory.Pte.Codec.{to_word-from_word}
use rust_baremetal.Virtmemory.PageTable.{new, map}
use rust_baremetal.Virtmemory.PageTable.New.{Made, Shows-zero, new-Made}
use rust_baremetal.Virtmemory.PageTable.Spares.{Spares}
use rust_baremetal.Virtmemory.PageTable.Map.{Shows, Partly, mapped, map-mapped}

abbrev idle_hart : Hart
idle_hart = record { sstatus = 0x8002; interrupt_off_stack = 0; interrupt_prev_state = false }

abbrev boot : Machine bitmap
unfolding bitmap
boot = record { mem = λ a. 7; heap = λ i. true; hart = idle_hart }

to_word-from_word_example : to_word (from_word 0x20080c5f) ≡ 0x20080c5f
to_word-from_word_example = to_word-from_word 0x20080c5f (omega arith)

-- A machine with one empty table, in the last page of its heap.
abbrev blank : Machine bitmap
unfolding bitmap
blank = record { mem = λ a. 0; heap = λ i. ltb i 15; hart = idle_hart }

blank-IsPage : IsPage bitmap blank.heap 0x8030f000
unfolding bitmap
blank-IsPage = record {
  aligned = refl;
  above = omega arith;
  below = omega arith;
  held = λ a h. ground arith;
}

blank-Shows : Shows bitmap 0x8030f000 (λ _. 0) blank
unfolding bitmap
blank-Shows = Shows-zero bitmap blank 0x8030f000 blank-IsPage (λ i h. unfold read_word in refl)

-- Two pages of a program, mapped for the user.
map-mapped_example :
    Ends
      (λ _ u.
        Shows bitmap 0x8030f000 (mapped (λ _. 0) 0x10000 0x80345000 (0x10000 + 0x2000) 0b10110) u
        × Spares bitmap 0x8030f000 blank u)
      (Partly bitmap 0x8030f000 (λ _. 0) 0x10000 0x80345000 (0x10000 + 0x2000) 0b10110 blank)
      (map bitmap 0x8030f000 0x10000 0x80345000 0x2000 0b10110 blank)
map-mapped_example =
    map-mapped bitmap (λ _. 0) 0x10000 0x80345000 0x2000 0b10110 blank-Shows refl refl refl
      (omega arith) (omega arith) (omega arith, omega arith)

new-Made_example :
    (new bitmap blank ≡ panic) × Exhausted bitmap blank
    ⊎ ((root : ℕ) × (t : Machine bitmap) × (new bitmap blank ≡ done root t)
        × Made bitmap blank root t)
new-Made_example = new-Made bitmap blank
