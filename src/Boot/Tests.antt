-- ===== src/Boot/Tests.antt =====
-- An instance of the theorem on a machine with a small heap.
use rust_baremetal.Prelude.{refl, none, [], arith}
use rust_baremetal.Machine.Bitmap.{bitmap}
use rust_baremetal.Virtmemory.UserSpace.{bare}
use rust_baremetal.Boot.{Addresses, Start, main}
use rust_baremetal.Boot.Booted.{Booted, heap_ready, main-Booted}

abbrev addresses : Addresses
addresses = record {
  ekernel = 0x80220000;
  end_text = 0x8020a000;
  trampoline_text = 0x80209000;
  kernelvec = 0x80204000;
}

abbrev cold : Start bitmap
cold = record {
  machine = bare;
  stvec = 0;
  sie = 0;
  satp = 0;
  kvm = none;
  process_table = [];
  pid = 7;
}

main-Booted_example :
    Booted bitmap addresses
      (heap_ready bitmap addresses (λ start size heap mem. (heap, mem)) cold)
      (main bitmap (λ start size heap mem. (heap, mem)) addresses cold)
unfolding bitmap
main-Booted_example =
    main-Booted bitmap addresses (omega arith) (omega arith) refl refl (omega arith)
      (λ start size heap mem. (heap, mem)) cold (omega arith) (omega arith)
