-- ===== src/Lifecycle/Exec/BuiltTests.antt =====
-- The address space of a program of one page, on an empty table.
use rust_baremetal.Prelude.{inl, refl, arith}
use rust_baremetal.Machine.Bitmap.{bitmap}
use rust_baremetal.Virtmemory.Uvm.{Space}
use rust_baremetal.Virtmemory.Uvm.Valid.{IsSpace}
use rust_baremetal.Virtmemory.UserSpace.{bare, bare-Shows, bare_entry}
use rust_baremetal.Lifecycle.Exec.{exec_pages}
use rust_baremetal.Lifecycle.Exec.Pages.{IsKept}
use rust_baremetal.Lifecycle.Exec.Built.{Built, exec_pages-Built}

abbrev new_space : Space bitmap
new_space = record { machine = bare; uvm = record { begin = 0x10000; size = 0; root = 0x8030f000 } }

new_space-IsSpace : IsSpace bitmap (λ _. 0) bare new_space.uvm
new_space-IsSpace = record {
  shows = bare-Shows;
  begin = refl;
  whole = refl;
  bound = omega arith;
  owned = record { owned = λ k h. absurd (omega arith); distinct = λ k j h. absurd (omega arith) };
  above = λ va lo hi. refl;
}

-- The image lies behind the kernel, below the heap.
image-IsKept : IsKept bitmap 0x80210000 5 bare 0x8030f000
unfolding bitmap
image-IsKept a lo hi = (
  ground arith,
  record {
    off_root = inl (omega arith);
    off_table = λ i h v. absurd (omega (arith, bare_entry i, v));
  },
)

exec_pages-Built_example :
    Built bitmap 0x80210000 5
      (λ _. 0)
      0x80209000
      0x80345000
      new_space
      (exec_pages bitmap 0x80209000 0x80345000 0x80210000 5 new_space)
unfolding bitmap
exec_pages-Built_example =
    exec_pages-Built bitmap 0x80210000 5 (λ _. 0) 0x80209000 0x80345000 new_space new_space-IsSpace
      refl (omega arith) image-IsKept (omega arith) refl (omega arith) refl (omega arith)
