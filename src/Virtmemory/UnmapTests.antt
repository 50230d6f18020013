-- ===== src/Virtmemory/UnmapTests.antt =====
-- `unmap` on an address space of one user page.
use native.Mathlib.Decide.{ℕ_discrete}
use mathlib.Core.Bool.{false≢true}
use rust_baremetal.Prelude.{
  ℕ, ◌+◌, ◌*◌, ◌/◌, ◌%◌, ◌≡◌, ◌≢◌, ◌∙◌, ◌⊎◌, ◌==◌, refl, sym, arith, true, false,
}
use rust_baremetal.Machine.{Machine}
use rust_baremetal.Machine.Bitmap.{bitmap}
use rust_baremetal.Machine.Outcome.{done, err}
use rust_baremetal.Virtmemory.PageTable.{unmap}
use rust_baremetal.Virtmemory.PageTable.Map.{put}
use rust_baremetal.Virtmemory.PageTable.Clear.{gives_back}
use rust_baremetal.Virtmemory.PageTable.Unmap.{Owned, Unmapped, unmap-Unmapped}
use rust_baremetal.Virtmemory.UserSpace.{user_space, user_space-Shows, user_page-IsOwned}

only_first :
    (k : ℕ) → gives_back true (put (λ _. 0) 0x10000 0x200c3417 (0x10000 + k * 4096)) ≡ true → k ≡ 0
only_first k = elim (ℕ_discrete k 0) [
  | yes e ↦ λ g. e
  | no ne ↦
      let far : ((0x10000 + k * 4096) / 4096 == 0x10000 / 4096) ≡ false = ground arith in
      rw far λ g. absurd (false≢true g)
]

pub pages-Owned :
    Owned bitmap true user_space 0x8030f000
      (λ k. put (λ _. 0) 0x10000 0x200c3417 (0x10000 + k * 4096))
      (8192 / 4096)
pages-Owned = record {
  owned = λ k h g.
      let page : put (λ _. 0) 0x10000 0x200c3417 (0x10000 + k * 4096) ≡ 0x200c3417 =
        rw (only_first k g) refl in
      rw page user_page-IsOwned;
  distinct = λ k j h h' g g' e. only_first k g ∙ sym (only_first j g');
}

unmap-Unmapped_example :
    (8192 % 4096 ≡ 0)
      × ((u : Machine bitmap) × (unmap bitmap 0x8030f000 0x10000 8192 true user_space ≡ done tt u)
          × Unmapped bitmap 0x8030f000 true
              (8192 / 4096)
              (put (λ _. 0) 0x10000 0x200c3417)
              user_space
              0x10000
              (0x10000 + 8192)
              u)
    ⊎ (8192 % 4096 ≢ 0) × (unmap bitmap 0x8030f000 0x10000 8192 true user_space ≡ err user_space)
unmap-Unmapped_example =
    unmap-Unmapped bitmap 0x8030f000 true (put (λ _. 0) 0x10000 0x200c3417) user_space 0x10000 8192
      user_space-Shows refl (omega arith) pages-Owned
