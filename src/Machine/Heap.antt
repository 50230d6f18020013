-- ===== src/Machine/Heap.antt =====
-- What the kernel uses of the crate buddy_system_allocator: `Heap::alloc` and `Heap::dealloc`
-- behind `LockedHeap` of kernel/src/allocator.rs. The crate is no part of the repository, so it
-- is a parameter, with its documented behaviour on one page.
use rust_baremetal.Prelude.{ℕ, ◌+◌, ◌%◌, ◌≤◌, ◌<◌, ◌≡◌, ◌⊎◌, Bool, true, false, Option, none, some}
use rust_baremetal.Prelude.Word.{word_mod}
use rust_baremetal.Machine.Memory.{Mem}

-- `core::alloc::Layout`
pub record Layout : Type 0 where
  pub size : ℕ
  pub align : ℕ

abbrev page : Layout
page = record { size = 4096; align = 4096 }

-- The address of a byte of the page `p`.
abbrev pub InPage : ℕ → ℕ → Type 0
InPage p a = (p ≤ a) × (a < p + 4096)

abbrev pub OutsidePage : ℕ → ℕ → Type 0
OutsidePage p a = (a < p) ⊎ (p + 4096 ≤ a)

-- A heap hands out the bytes from `lo` to `hi`. It may write in bytes that nobody holds, since a
-- buddy allocator keeps its lists there.
pub record HeapAllocator : Type 1 where
  pub State : Type 0
  pub lo : ℕ
  pub hi : ℕ
  pub inner_alloc : Layout → State → Mem → Option ℕ × State × Mem
  pub inner_dealloc : ℕ → Layout → State → Mem → State × Mem
  -- The bytes that nobody holds.
  pub is_free : State → ℕ → Bool
  pub lo_pos : 0 < lo
  pub hi_le : hi ≤ word_mod
  -- A page that is handed out is aligned, lies in the heap, was free and is free no more.
  pub alloc-some :
      (s : State) (m : Mem) (p : ℕ)
      → (inner_alloc page s m).0 ≡ some p
      → (p % 4096 ≡ 0)
        × (lo ≤ p)
        × (p + 4096 ≤ hi)
        × ((a : ℕ) → InPage p a → is_free s a ≡ true)
        × ((a : ℕ) → InPage p a → is_free (inner_alloc page s m).1 a ≡ false)
        × ((a : ℕ) → OutsidePage p a → is_free (inner_alloc page s m).1 a ≡ is_free s a)
  pub alloc-none :
      (s : State) (m : Mem)
      → (inner_alloc page s m).0 ≡ none
      → (a : ℕ) → is_free (inner_alloc page s m).1 a ≡ is_free s a
  pub alloc-mem :
      (s : State) (m : Mem) (a : ℕ) → is_free s a ≡ false → (inner_alloc page s m).2 a ≡ m a
  -- A page that is given back was held; it is free afterwards, and nothing else changes.
  pub dealloc-page :
      (s : State) (m : Mem) (p : ℕ)
      → p % 4096 ≡ 0
      → lo ≤ p
      → p + 4096 ≤ hi
      → ((a : ℕ) → InPage p a → is_free s a ≡ false)
      → ((a : ℕ) → InPage p a → is_free (inner_dealloc p page s m).0 a ≡ true)
        × ((a : ℕ) → OutsidePage p a → is_free (inner_dealloc p page s m).0 a ≡ is_free s a)
        × ((a : ℕ) → OutsidePage p a → is_free s a ≡ false → (inner_dealloc p page s m).1 a ≡ m a)
