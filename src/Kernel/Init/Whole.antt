-- ===== src/Kernel/Init/Whole.antt =====
-- `initproc` as a whole: `n` rounds, each with a table, a trapframe and two pages of stack.
use mathlib.Core.List.{append_assoc, append-nil}
use rust_baremetal.Prelude.{
  ℕ, zero, suc, ◌+◌, ◌*◌, ◌/◌, ◌%◌, ◌≤◌, ◌<◌, ◌≡◌, ◌∙◌, refl, sym, ap, arith, true, ltb, some, List,
  [], ◌∷◌, ◌++◌, length,
}
use rust_baremetal.Prelude.Word.{word_mod}
use rust_baremetal.Machine.{Machine}
use rust_baremetal.Machine.Heap.{HeapAllocator}
use rust_baremetal.Process.{Process}
use rust_baremetal.Process.Blank.{blank, stack_of, kstack_lem}
use rust_baremetal.Virtmemory.Pte.{trampoline}
use rust_baremetal.Virtmemory.PageTable.Map.{Shows}
use rust_baremetal.Virtmemory.PageTable.Spares.{Spares-refl}
use rust_baremetal.Virtmemory.Kvm.{kstack_loop}
use rust_baremetal.Kernel.Init.{add_process, initproc_loop, initproc}
use rust_baremetal.Kernel.Init.Stacks.{Stacked, slots, slots_cong, empty_space, with_frame}
use rust_baremetal.Kernel.Init.Rounds.{
  Step, reached, Step-bind, process-Step, stack-Step, map-Step, page_at, page_at-bounds,
}

module _ (H : HeapAllocator) (root : ℕ) (f : ℕ → ℕ) (s : Machine H) (first : ℕ) where
  -- The table behind `old` after `k` rounds.
  abbrev pub Pushed : List Process → ℕ → List Process → Machine H → Type 0
  Pushed old k table t =
      (tables : ℕ → ℕ) × (table ≡ old ++ slots first k tables)
      × Stacked H root f s first tables k (2 * k) t

module _ (H : HeapAllocator) (root : ℕ) (f : ℕ → ℕ) (s : Machine H) (first limit : ℕ)
    (bound : (first + limit) * 12288 ≤ trampoline) (room : H.hi < word_mod) where
  -- The rounds of `alloc_kstack` that are left.
  kstack_loop-Step :
      (r i k : ℕ) {tables : ℕ → ℕ} {m : ℕ} {t : Machine H}
      → i + r ≡ 2
      → k < limit
      → Stacked H root f s first tables m (2 * k + i) t
      → Step H root f s first
          (λ _. Stacked H root f s first tables m (2 * k + 2))
          (kstack_loop H r root (stack_of (first + k)) i t)
  kstack_loop-Step zero i k e more a = let all : i ≡ 2 = omega arith in reached (rw all at a)
  kstack_loop-Step (suc r) i k e more a =
      let later : 2 * k + i < 2 * limit = omega arith in
      let half : (2 * k + i) / 2 ≡ k = omega arith in
      let rest : (2 * k + i) % 2 ≡ i = omega arith in
      let next : suc (2 * k + i) ≡ 2 * k + (i + 1) = omega arith in
      let here : stack_of (first + k) + i * 4096
          ≡ page_at H root f s first limit bound room (2 * k + i) =
        rw (half, rest) refl in
      let (_, below) = page_at-bounds H root f s first limit bound room (2 * k + i) later in
      let fits : ltb (page_at H root f s first limit bound room (2 * k + i)) word_mod ≡ true =
        ground (arith, below) in
      Step-bind H root f s first (stack-Step H root f s first limit bound room a later) λ x c fresh.
        rw (here, fits)
          (Step-bind H root f s first (map-Step H root f s first limit bound room a later fresh)
            (λ _ u b. kstack_loop-Step r (i + 1) k (omega arith) more (rw next at b)))

  -- A round.
  add_process-Step :
      (k : ℕ) {tables : ℕ → ℕ} {t : Machine H}
      → k < limit
      → Stacked H root f s first tables k (2 * k) t
      → Step H root f s first
          (λ x u.
            (r : ℕ) × (x ≡ blank (first + k) (empty_space r))
            × Stacked H root f s first (with_frame tables k r) (suc k) (2 * suc k) u)
          (add_process H root (first + k) t)
  unfolding add_process
  add_process-Step k more a =
      let start : 2 * k ≡ 2 * k + 0 = omega arith in
      let stop : 2 * k + 2 ≡ 2 * suc k = omega arith in
      Step-bind H root f s first (process-Step H root f s first (first + k) a) λ x u (r, is_new, b).
        rw (kstack_lem (first + k)) (
          Step-bind H root f s first (kstack_loop-Step 2 0 k refl more (rw start at b))
            (λ _ v c. reached (r, is_new, rw stop at c)))

  pushed :
      (old : List Process) (k : ℕ) (tables : ℕ → ℕ) (r : ℕ)
      → old ++ slots first k tables ++ (blank (first + k) (empty_space r) ∷ [])
        ≡ old ++ slots first (suc k) (with_frame tables k r)
  unfolding slots
  pushed old k tables r =
      let newest : with_frame tables k r k ≡ r = ground arith in
      let others : slots first k (with_frame tables k r) ≡ slots first k tables =
        slots_cong first k _ _ (λ j h. ground arith) in
      rw (newest, others) (append_assoc old (slots first k tables) _)

  initproc_loop-Step :
      (old : List Process) (n k : ℕ) {table : List Process} {t : Machine H}
      → k + n ≡ limit
      → Pushed H root f s first old k table t
      → Step H root f s first
          (Pushed H root f s first old limit)
          (initproc_loop H n root (first + k) table t)
  unfolding initproc_loop
  initproc_loop-Step old zero k e a = let all : k ≡ limit = omega arith in reached (rw all at a)
  initproc_loop-Step old (suc n) k {table} e (tables, is_table, a) =
      let next : first + k + 1 ≡ first + suc k = omega arith in
      Step-bind H root f s first (add_process-Step k (omega arith) a) λ x u (r, is_new, b).
        let now : table ++ (x ∷ []) ≡ old ++ slots first (suc k) (with_frame tables k r) =
          ap (λ p. table ++ (p ∷ [])) is_new
          ∙ (ap (λ l. l ++ (blank (first + k) (empty_space r) ∷ [])) is_table
              ∙ pushed old k tables r) in
        rw next (initproc_loop-Step old n (suc k) (omega arith) (with_frame tables k r, now, b))

  -- `initproc` of a table with `first` slots, where the stacks of all slots fit below the trampoline
  -- and the heap ends below the top of memory: it panics where no memory is left for a page, or for a
  -- table of the kernel's; or it returns the table with `limit` unused slots more, numbered on from
  -- `first`, each with an empty page table. Then every slot's two pages of stack are mapped, to read
  -- and write for the kernel only, each to a frame of its own; all these pages and page tables were
  -- free, and no two are the same; all other addresses translate as before, so that the page below
  -- each stack stays a guard; and nothing that was held and is no table of the kernel's has changed.
  pub initproc-Pushed :
      (old : List Process)
      → length old ≡ first
      → Shows H root f s
      → Step H root f s first
          (Pushed H root f s first old limit)
          (initproc H limit (some root) old s)
  unfolding initproc slots
  initproc-Pushed old is_length shows =
      let fits : ltb (length old + limit) word_mod ≡ true = ground (arith, bound, is_length) in
      let more : first + 0 ≡ first = omega arith in
      let none_yet : Stacked H root f s first (λ _. 0) 0 (2 * 0) s = record {
        view = f;
        shows = shows;
        spares = Spares-refl H root s;
        frames = λ _. 0;
        mapped = λ k h. absurd (omega arith);
        own = λ k h. absurd (omega arith);
        distinct = λ k j h i. absurd (omega arith);
        elsewhere = λ va out. refl;
        empty = λ j h. absurd (omega arith);
        tables_distinct = λ j i h k. absurd (omega arith);
        apart = λ k j h. absurd (omega arith);
      } in
      rw (fits, is_length)
        (rw more at
          (initproc_loop-Step old limit 0 (omega arith) ((λ _. 0), sym (append-nil old), none_yet)))
