-- ===== src/Machine/FrameTests.antt =====
-- `FrameAllocator` on the concrete heap.
use rust_baremetal.Prelude.{true}
use rust_baremetal.Machine.{Machine}
use rust_baremetal.Machine.Bitmap.{bitmap}
use rust_baremetal.Machine.Heap.{Layout}
use rust_baremetal.Machine.FrameAllocator.{allocate, Frame, allocate-Frame}

abbrev empty_heap : Machine bitmap
unfolding bitmap
empty_heap = record {
  mem = λ a. 7;
  heap = λ i. true;
  hart = record { sstatus = 0; interrupt_off_stack = 0; interrupt_prev_state = true };
}

abbrev small_layout : Layout
small_layout = record { size = 144; align = 4 }

allocate-Frame_example :
    Frame bitmap small_layout empty_heap (allocate bitmap small_layout empty_heap)
allocate-Frame_example = allocate-Frame bitmap small_layout empty_heap
