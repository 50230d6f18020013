-- ===== src/Kernel/Init/Tests.antt =====
-- An instance of the theorem on a kernel with an empty process table.
use rust_baremetal.Prelude.{[], refl, arith}
use rust_baremetal.Machine.Bitmap.{bitmap}
use rust_baremetal.Virtmemory.UserSpace.{bare, bare-Shows}
use rust_baremetal.Kernel.Init.{initproc}
use rust_baremetal.Kernel.Init.Rounds.{Step}
use rust_baremetal.Kernel.Init.Whole.{Pushed, initproc-Pushed}
use rust_baremetal.Prelude.{some}

initproc-Pushed_example :
    Step bitmap 0x8030f000
      (λ _. 0)
      bare
      0
      (Pushed bitmap 0x8030f000 (λ _. 0) bare 0 [] 4)
      (initproc bitmap 4 (some 0x8030f000) [] bare)
unfolding bitmap
initproc-Pushed_example =
    initproc-Pushed bitmap 0x8030f000 (λ _. 0) bare 0 4 (omega arith) (omega arith) [] refl
      bare-Shows
