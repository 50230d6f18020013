-- ===== src/Kernel/Init/Rounds.antt =====
-- The rounds of `initproc`, and `initproc` as a whole.
use rust_baremetal.Prelude.{
  ℕ, suc, ◌+◌, ◌*◌, ◌/◌, ◌%◌, ◌≤◌, ◌<◌, ◌≡◌, ◌≢◌, ◌∙◌, inl, inr, refl, ap, arith,
}
use rust_baremetal.Prelude.Word.{word_mod}
use rust_baremetal.Machine.{Machine, page_layout}
use rust_baremetal.Machine.Outcome.{Run, done, panic, Ends, returned, failed, and_then, unwrapped}
use rust_baremetal.Machine.Heap.{HeapAllocator, Layout}
use rust_baremetal.Machine.Memory.{write_zeros, write_zeros_apart}
use rust_baremetal.Machine.Frames.{Keeps, Fresh, Fresh-outside, Exhausted}
use rust_baremetal.Machine.FrameAllocator.{
  allocate, Frame, too_large, no_memory, frame, allocate-Frame,
}
use rust_baremetal.Process.{Process}
use rust_baremetal.Process
use rust_baremetal.Process.Blank.{blank, new-blank}
use rust_baremetal.Virtmemory.Pte.{leaf_entry, trampoline}
use rust_baremetal.Virtmemory.PageTable.Map.{Shows, put}
use rust_baremetal.Virtmemory.Uvm.Valid.{Keeps-Shows}
use rust_baremetal.Virtmemory.PageTable.{map}
use rust_baremetal.Virtmemory.PageTable.One.{map_one}
use rust_baremetal.Virtmemory.PageTable.Spares.{Spares}
use rust_baremetal.Virtmemory.PageTable.New.{new-Made}
use rust_baremetal.Virtmemory.Uvm
use rust_baremetal.Kernel.Init.{trapframe_layout, new_trapframe, new_process}
use rust_baremetal.Kernel.Init.Stacks.{
  Stacked, stack_page, empty_space, with_frame, later_kept, with_table, with_stack,
}

module _ (H : HeapAllocator) (root : ℕ) (f : ℕ → ℕ) (s : Machine H) (first : ℕ) where
  -- Why `initproc` stops: no memory is left for a page, or for a table of the kernel's once the page
  -- is taken.
  pub data Stuck : Type 0 where
    full :
        {tables : ℕ → ℕ} {m n : ℕ} {t : Machine H}
        → Stacked H root f s first tables m n t
        → Exhausted H t
        → Stuck
    full_table :
        {tables : ℕ → ℕ} {m n p : ℕ} {t c : Machine H}
        → Stacked H root f s first tables m n t
        → Fresh H t c p
        → Exhausted H c
        → Stuck

  -- A command returns with `P`, or stops without memory.
  pub data Step {A : Type 0} (P : A → Machine H → Type 0) : Run (Machine H) A → Type 0 where
    reached : {x : A} {t : Machine H} → P x t → Step P (done x t)
    stuck : Stuck → Step P panic

  pub Step-bind :
      {A B : Type 0} {P : A → Machine H → Type 0} {Q : B → Machine H → Type 0}
      {r : Run (Machine H) A} {next : A → Machine H → Run (Machine H) B}
      → Step P r
      → ((x : A) (t : Machine H) → P x t → Step Q (next x t))
      → Step Q (and_then r next)
  Step-bind (reached p) next = next _ _ p
  Step-bind (stuck why) next = stuck why

  module _ {tables : ℕ → ℕ} {m n : ℕ} {t : Machine H}
      (a : Stacked H root f s first tables m n t) where
    -- `allocate(…).unwrap()` of at most a page.
    allocate-Step :
        (layout : Layout)
        → layout.size ≤ 4096
        → Step (λ x u. Fresh H t u x.0) (unwrapped (allocate H layout t))
    allocate-Step layout small = taken (allocate-Frame H layout t)
      where
        taken :
            {r : Run (Machine H) (ℕ × ℕ)}
            → Frame H layout t r
            → Step (λ x u. Fresh H t u x.0) (unwrapped r)
        taken (too_large large) = absurd (omega (arith, large))
        taken (no_memory none_left _) = stuck (full a none_left)
        taken (frame _ fresh) = reached fresh

    trapframe-Step : Step (λ _. Stacked H root f s first tables m n) (new_trapframe H t)
    unfolding new_trapframe
    trapframe-Step =
        Step-bind (allocate-Step trapframe_layout (omega arith))
          (λ x u fresh. reached (later_kept H root f s first a (cleared fresh)))
      where
        cleared :
            {p : ℕ} {u : Machine H}
            → Fresh H t u p
            → Keeps H t (record u { mem = write_zeros u.mem p 144 })
        cleared {p} {u} fresh = record {
          held = fresh.keeps.held;
          mem = λ b h.
              write_zeros_apart u.mem p 144 b (grind (arith, Fresh-outside H fresh b h))
              ∙ fresh.keeps.mem b h;
        }

    -- The table of the process's address space.
    space-Step :
        Step
          (λ x u.
            (r : ℕ) × (x ≡ empty_space r)
            × Stacked H root f s first (with_frame tables m r) (suc m) n u)
          (Uvm.new H t)
    unfolding Uvm.new
    space-Step = elim (new-Made H t) [
      | inl (fails, none_left) ↦ rw fails (stuck (full a none_left))
      | inr (r, u, run, made) ↦ rw run (reached (r, refl, with_table H root f s first a made))
    ]

  pub process-Step :
      {tables : ℕ → ℕ} {m n : ℕ} {t : Machine H} (i : ℕ)
      → Stacked H root f s first tables m n t
      → Step
          (λ x u.
            (r : ℕ) × (x ≡ blank i (empty_space r))
            × Stacked H root f s first (with_frame tables m r) (suc m) n u)
          (new_process H i t)
  unfolding new_process
  process-Step i a = Step-bind (space-Step a) λ uvm u (r, space, b).
      Step-bind (trapframe-Step b)
        λ _ v c. reached (r, ap (Process.new i) space ∙ new-blank i (empty_space r), c)

  module _ (limit : ℕ) (bound : (first + limit) * 12288 ≤ trampoline) (room : H.hi < word_mod) where
    abbrev pub page_at : ℕ → ℕ
    page_at = stack_page H root f s first

    -- The pages of the stacks lie below the trampoline, and no two are the same.
    pub page_at-bounds :
        (k : ℕ) → k < 2 * limit → (page_at k % 4096 ≡ 0) × (page_at k + 4096 < word_mod)
    page_at-bounds k h = (omega (arith, bound), omega (arith, bound))

    page_at-apart : (k j : ℕ) → k < j → j < 2 * limit → page_at k / 4096 ≢ page_at j / 4096
    page_at-apart k j h i e = omega (arith, bound, e)

    module _ {tables : ℕ → ℕ} {m n : ℕ} {t : Machine H} (a : Stacked H root f s first tables m n t)
        (more : n < 2 * limit) where
      -- A page of stack, and its entry.
      pub stack-Step : Step (λ x u. Fresh H t u x.0) (unwrapped (allocate H page_layout t))
      stack-Step = allocate-Step a page_layout (omega arith)

      pub map-Step :
          {p : ℕ} {c : Machine H}
          → Fresh H t c p
          → Step
              (λ _. Stacked H root f s first tables m (suc n))
              (unwrapped (map H root (page_at n) p 4096 0b0110 c))
      map-Step {p} {c} fresh =
          let (aligned, below) = page_at-bounds n more in
          mapped (
            map_one H root c (page_at n) p 0b0110 (omega (arith, below))
              (omega (arith, fresh.page.below)) (omega arith, refl) a.view
              (Keeps-Shows H fresh.keeps a.shows) aligned fresh.page.aligned below
              (omega (arith, fresh.page.below)))
        where
          mapped :
              {r : Run (Machine H) (Unit {0})}
              → Ends
                  (λ _ u.
                    Shows H root (put a.view (page_at n) (leaf_entry p 0b0110)) u
                    × Spares H root c u)
                  (λ u. Shows H root a.view u × (Spares H root c u × Exhausted H c))
                  r
              → Step (λ _. Stacked H root f s first tables m (suc n)) (unwrapped r)
          mapped (returned (shows, spares)) =
              reached
                (with_stack H root f s first a (λ k h. page_at-apart k n h more) fresh shows spares)
          mapped (failed (_, (_, none_left))) = stuck (full_table a fresh none_left)
