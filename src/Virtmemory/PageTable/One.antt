-- ===== src/Virtmemory/PageTable/One.antt =====
-- `map` of a single page: the page is given its entry, and the rest of memory is left alone.
use rust_baremetal.Prelude.{ℕ, ◌+◌, ◌%◌, ◌<◌, ◌≡◌, arith, true, false, ltb, ◌==◌}
use rust_baremetal.Prelude.Word.{word_mod}
use rust_baremetal.Machine.{Machine}
use rust_baremetal.Machine.Outcome.{Run, Ends, returned, failed, Ends-both}
use rust_baremetal.Machine.Outcome
use rust_baremetal.Machine.Heap.{HeapAllocator}
use rust_baremetal.Machine.Frames.{Exhausted}
use rust_baremetal.Virtmemory.Pte.{leaf_entry}
use rust_baremetal.Virtmemory.Pte.Codec.{IsPerm}
use rust_baremetal.Virtmemory.PageTable.{map_page, map_loop, map}
use rust_baremetal.Virtmemory.PageTable.Map.{Shows, put, map_page-put}
use rust_baremetal.Virtmemory.PageTable.Spares.{Spares}

module _ (H : HeapAllocator) (root : ℕ) (s : Machine H) (va paddr perm : ℕ) (fits : va < word_mod)
    (p_fits : paddr < word_mod) (is_perm : IsPerm perm) where
  -- One round is all.
  map-map_page :
      {P Q : Machine H → Type 0}
      → va % 4096 ≡ 0
      → paddr % 4096 ≡ 0
      → va + 4096 < word_mod
      → paddr + 4096 < word_mod
      → Ends (λ _. P) Q (map_page H root va paddr perm s)
      → Ends (λ _. P) Q (map H root va paddr 4096 perm s)
  unfolding map map_loop
  map-map_page v_al p_al v_end p_end one =
      let test_p : (paddr % 4096 == 0) ≡ true = ground arith in
      let test_v : (va % 4096 == 0) ≡ true = ground arith in
      let add_va : ltb (va + 4096) word_mod ≡ true = ground arith in
      let add_pa : ltb (paddr + 4096) word_mod ≡ true = ground arith in
      let go : ltb va (va + 4096) ≡ true = ground arith in
      let stop : ltb (va + 4096) (va + 4096) ≡ false = ground arith in
      rw (test_p, test_v, add_va, go)
        (Outcome.bind one (λ _ u p. rw (add_va, add_pa, stop) (returned p)))

  -- `map` of one page returns with the entry of that page set and every other translation kept, or,
  -- where no memory is left for a table, fails with all translations kept; what is held and is no table is left alone either way.
  pub map_one :
      (f : ℕ → ℕ)
      → Shows H root f s
      → va % 4096 ≡ 0
      → paddr % 4096 ≡ 0
      → va + 4096 < word_mod
      → paddr + 4096 < word_mod
      → Ends
          (λ _ u. Shows H root (put f va (leaf_entry paddr perm)) u × Spares H root s u)
          (λ u. Shows H root f u × (Spares H root s u × Exhausted H s))
          (map H root va paddr 4096 perm s)
  map_one f shows v_al p_al v_end p_end =
      map-map_page v_al p_al v_end p_end (map_page-put H f va paddr perm shows fits p_fits is_perm)
