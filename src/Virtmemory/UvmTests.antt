-- ===== src/Virtmemory/UvmTests.antt =====
-- Instances of the theorems on the address spaces of a program and of the kernel.
use rust_baremetal.Prelude.{ℕ, ◌%◌, ◌≤◌, ◌<◌, ◌≡◌, ◌≢◌, ◌⊎◌, inr, refl, arith}
use rust_baremetal.Machine.Bitmap.{bitmap}
use rust_baremetal.Machine.Outcome.{done, panic, err, Ends}
use rust_baremetal.Virtmemory.PageTable.Map.{put}
use rust_baremetal.Virtmemory.UnmapTests.{pages-Owned}
use rust_baremetal.Virtmemory.UserSpace.{bare, user_space, user_space-Shows}
use rust_baremetal.Virtmemory.Kvm.{init}
use rust_baremetal.Virtmemory.Kvm.Sections.{Initialised, init-KernelView}
use rust_baremetal.Virtmemory.Uvm.{Space, alloc_uvm, dealloc_uvm}
use rust_baremetal.Virtmemory.Uvm
use rust_baremetal.Machine.{Machine}
use rust_baremetal.Machine.Heap.{OutsidePage}
use rust_baremetal.Virtmemory.PageTable.View.{target}
use rust_baremetal.Virtmemory.PageTable.Clear.{is_user_leaf}
use rust_baremetal.Virtmemory.Uvm.{load_image}
use rust_baremetal.Virtmemory.Uvm.Load.{Loaded, load-Loaded}
use rust_baremetal.Prelude.{true, ◌+◌}
use rust_baremetal.Virtmemory.Uvm.Valid.{IsSpace}
use rust_baremetal.Virtmemory.Uvm.Grown.{Grown, Short}
use rust_baremetal.Virtmemory.Uvm.Grow.{grown_size, alloc_uvm-Grown}
use rust_baremetal.Virtmemory.Uvm.Shrink.{Shrunk, dealloc_uvm-Shrunk}
use rust_baremetal.Virtmemory.Uvm.Free.{Emptied, free-Emptied}
use rust_baremetal.Virtmemory.Uvm.Copied.{IsUserEntry}
use rust_baremetal.Virtmemory.Uvm.Cloned.{Cloned, clone-Cloned}
use rust_baremetal.Virtmemory.Uvm.Valid.{words}
use rust_baremetal.Prelude.{zero, suc, inl, sym}
use rust_baremetal.Virtmemory.Pte.Codec.{leaf_entry_sum}
use rust_baremetal.Virtmemory.Uvm.{clone}

-- A program with a page of its own and a guard page behind it.
abbrev program : Space bitmap
program = record {
  machine = user_space;
  uvm = record { begin = 0x10000; size = 8192; root = 0x8030f000 };
}

abbrev program_view : ℕ → ℕ
program_view = put (λ _. 0) 0x10000 0x200c3417

program-IsSpace : IsSpace bitmap program_view program.machine program.uvm
program-IsSpace = record {
  shows = user_space-Shows;
  begin = refl;
  whole = refl;
  bound = omega arith;
  owned = pages-Owned;
  above = λ va lo hi. ground arith;
}

alloc_uvm-Grown_example :
    Ends
      (λ _ t.
        Grown bitmap 0b0110 program_view program t × (t.uvm.size ≡ grown_size bitmap 8192 13000))
      (Short bitmap 0b0110 program_view 13000 program)
      (alloc_uvm bitmap 13000 0b0110 program)
unfolding bitmap
alloc_uvm-Grown_example =
    alloc_uvm-Grown bitmap 13000 0b0110 program_view program program-IsSpace (omega arith)
      (omega arith) (inr (omega arith, refl, λ e. omega (arith, e)))

dealloc_uvm-Shrunk_example :
    (0 % 4096 ≡ 0)
      × (0 ≤ 8192)
      × ((t : Space bitmap) × (dealloc_uvm bitmap 0 program ≡ done tt t)
          × Shrunk bitmap program_view 0 program t)
    ⊎ (0 % 4096 ≡ 0) × (8192 < 0) × (dealloc_uvm bitmap 0 program ≡ panic)
    ⊎ (0 % 4096 ≢ 0) × (dealloc_uvm bitmap 0 program ≡ err program)
dealloc_uvm-Shrunk_example = dealloc_uvm-Shrunk bitmap program_view program program-IsSpace 0

free-Emptied_example :
    (t : Space bitmap) × (Uvm.free bitmap program ≡ done tt t)
    × Emptied bitmap program_view program t
free-Emptied_example = free-Emptied bitmap program_view program program-IsSpace

program_entries : (k : ℕ) → k < 2 → IsUserEntry (words program_view k)
program_entries zero h = inr (
  0x8030d000,
  6,
  (omega arith, refl, λ e. omega (arith, e)),
  (refl, omega arith),
  sym (leaf_entry_sum 0x8030d000 22 (omega arith) (omega arith)),
)
program_entries (suc zero) h = inl refl
program_entries (suc (suc k)) h = absurd (omega arith)

clone-Cloned_example :
    Cloned bitmap program_view program.uvm user_space (clone bitmap program.uvm user_space)
unfolding bitmap
clone-Cloned_example =
    clone-Cloned bitmap program_view program.uvm user_space program-IsSpace (omega arith)
      program_entries

program_leaf : (j : ℕ) → j < 1 → is_user_leaf (words program_view j) ≡ true
program_leaf zero h = refl
program_leaf (suc j) h = absurd (omega arith)

kernel_apart :
    (a j : ℕ)
    → j < 1
    → 0x80210000 ≤ a
    → a < 0x80210000 + 4096
    → OutsidePage (target (words program_view j)) a
kernel_apart a zero h lo hi = inl (omega arith)
kernel_apart a (suc j) h lo hi = absurd (omega arith)

-- An image of five bytes behind the kernel.
load-Loaded_example :
    (u : Machine bitmap) × (load_image bitmap 0x8030f000 65536 0x80210000 5 user_space ≡ done tt u)
    × Loaded bitmap program_view 0x8030f000 0x80210000 user_space 1 1 u
unfolding bitmap
load-Loaded_example =
    load-Loaded bitmap program_view program.uvm user_space 0x80210000 5 program-IsSpace
      (omega arith) (omega arith) program_leaf kernel_apart

init-KernelView_example :
    Initialised bitmap 0x8020a000 0x80209000
      (omega arith)
      (omega arith)
      refl
      refl
      (omega arith)
      bare
      (init bitmap 0x8020a000 0x80209000 bare)
init-KernelView_example =
    init-KernelView bitmap 0x8020a000 0x80209000 (omega arith) (omega arith) refl refl (omega arith)
      bare
