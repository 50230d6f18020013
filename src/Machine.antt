-- ===== src/Machine.antt =====
-- Physical memory, the heap behind `HEAP_ALLOCATOR`, and the commands that the kernel's
-- functions are made of.
pub mod Outcome
pub mod Memory
pub mod Bitmap
pub mod Heap
pub mod Frames
pub mod FrameAllocator
mod FrameTests
use Outcome.{Run, done, panic, M, pure, ◌>>=◌, ◌>>◌, expect}
use Memory.{Mem, read_word, write_word, write_zeros}
use Heap.{HeapAllocator, Layout}
use rust_baremetal.Prelude.{ℕ, zero, suc, ◌+◌, Bool, Option, none, some, ltb, ◌==◌, if◌then◌else◌}
use rust_baremetal.Prelude.Word.{word_mod}
use rust_baremetal.Hart.{Hart, after_push, pop_interrupt_off}

-- `PAGE_LAYOUT` of virtmemory.rs
abbrev pub page_layout : Layout
page_layout = record { size = 4096; align = 4096 }

-- `NonNull::new`
abbrev pub non_null : ℕ → Option ℕ
non_null p = if p == 0 then none else some p

-- An addition on `usize`, with the overflow check of the `dev` profile.
abbrev pub add_usize {ℓ} : {S : Type ℓ} → ℕ → ℕ → M S ℕ
add_usize a b = λ s. if ltb (a + b) word_mod then done (a + b) s else panic

module _ (H : HeapAllocator) where
  open H use {State, inner_alloc, inner_dealloc}

  pub record Machine : Type 0 where
    pub mem : Mem
    pub heap : State
    pub hart : Hart

  abbrev pub Cmd : Type 0 → Type 0
  Cmd A = M Machine A

  abbrev pub load : ℕ → Cmd ℕ
  load p = λ s. done (read_word s.mem p) s

  abbrev pub store : ℕ → ℕ → Cmd (Unit {0})
  store p v = λ s. done tt (record s { mem = write_word s.mem p v })

  -- `write_bytes(p, 0, n)`, `n` counted in bytes
  abbrev pub zeros : ℕ → ℕ → Cmd (Unit {0})
  zeros p n = λ s. done tt (record s { mem = write_zeros s.mem p n })

  -- `IntMutex::lock`, and the drop of its guard, on a mutex that is free.
  abbrev pub lock : Cmd (Unit {0})
  lock = λ s. done tt (record s { hart = after_push s.hart })

  abbrev pub unlocked : Option Hart → Cmd (Unit {0})
  unlocked none s = panic
  unlocked (some h) s = done tt (record s { hart = h })

  abbrev pub unlock : Cmd (Unit {0})
  unlock = λ s. unlocked (pop_interrupt_off s.hart) s

  -- `map_or(null_mut(), …)`
  abbrev pub or_null : Option ℕ → ℕ
  or_null none = 0
  or_null (some p) = p

  -- `LockedHeap::alloc`
  unfoldable pub alloc : Layout → Cmd ℕ
  alloc layout = do
    lock
    p ← λ s.
        let (p, heap, mem) = inner_alloc layout s.heap s.mem in
        done p (record s { heap = heap; mem = mem })
    unlock
    pure (or_null p)

  -- `LockedHeap::dealloc`
  unfoldable pub dealloc : ℕ → Layout → Cmd (Unit {0})
  dealloc ptr layout = do
    ptr_non ← expect (non_null ptr)
    lock
    _ ← λ s.
        let (heap, mem) = inner_dealloc ptr_non layout s.heap s.mem in
        done tt (record s { heap = heap; mem = mem })
    unlock
