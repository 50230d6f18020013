-- ===== src/Machine/FrameAllocator.antt =====
-- `FrameAllocator` of kernel/src/allocator.rs: boxes live in pages of their own.
use rust_baremetal.Prelude.{
  ℕ, ◌≤◌, ◌<◌, ◌≡◌, ◌∙◌, inl, inr, arith, false, ltb, ◌==◌, if◌then◌else◌, Bool-cases,
}
use rust_baremetal.Machine.{Machine, Cmd, alloc, dealloc, page_layout, non_null}
use rust_baremetal.Machine.Outcome.{Run, done, err, pure, ◌>>=◌, ok_or}
use rust_baremetal.Machine.Heap.{HeapAllocator, Layout}
use rust_baremetal.Machine.Frames.{
  Keeps, Exhausted, Fresh, Freed, alloc_lem, dealloc_lem, Fresh-outside,
}

module _ (H : HeapAllocator) where
  -- The address and the length of the slice; `err` is `AllocError`.
  pub allocate : Layout → Cmd H (ℕ × ℕ)
  allocate layout = if ltb page_layout.size layout.size then err else (do
    frame_ptr ← alloc H page_layout
    ptr ← ok_or (non_null frame_ptr)
    pure (ptr, layout.size))

  pub deallocate : ℕ → Layout → Cmd H (Unit {0})
  deallocate ptr layout = dealloc H ptr page_layout

  -- The three ways in which `allocate` returns.
  pub data Frame (layout : Layout) (s : Machine H) : Run (Machine H) (ℕ × ℕ) → Type 0 where
    too_large : 4096 < layout.size → Frame layout s (err s)
    no_memory : {t : Machine H} → Exhausted H s → Keeps H s t → Frame layout s (err t)
    frame :
        {p : ℕ} {t : Machine H}
        → layout.size ≤ 4096
        → Fresh H s t p
        → Frame layout s (done (p, layout.size) t)

  -- `allocate` refuses a layout larger than a page and changes nothing; on an exhausted heap it
  -- fails, and all that was held is kept; otherwise it returns a page that was free, with the length
  -- that was asked for, and all that was held is kept.
  pub allocate-Frame : (layout : Layout) (s : Machine H) → Frame layout s (allocate layout s)
  unfolding allocate
  allocate-Frame layout s = elim (Bool-cases (ltb 4096 layout.size)) [
    | inl large ↦ rw large (too_large (ground arith))
    | inr fits ↦
        let (p, t, ran, keeps, ends) = alloc_lem H s in
        rw (fits, ran)
          (elim ends [
            | inl (null, full) ↦ rw null (no_memory full keeps)
            | inr fresh ↦
                let nonzero : (p == 0) ≡ false = ground (arith, H.lo_pos, fresh.page.above) in
                rw nonzero (frame (ground arith) fresh)
          ])
  ]

  -- What is given back after `allocate` is free again, and all that was held is kept.
  pub deallocate-allocate :
      (layout : Layout) (s : Machine H) {t : Machine H} (p : ℕ)
      → Fresh H s t p
      → (u : Machine H) × (deallocate p layout t ≡ done tt u) × Freed H t u p × Keeps H s u
  unfolding deallocate
  deallocate-allocate layout s {t} p fresh =
      let (u, ran, freed) = dealloc_lem H t p fresh.page in
      (
        u,
        ran,
        freed,
        record {
          held = λ a h. freed.free_else a (Fresh-outside H fresh a h) ∙ fresh.keeps.held a h;
          mem = λ a h.
              freed.mem_else a (Fresh-outside H fresh a h) (fresh.keeps.held a h)
              ∙ fresh.keeps.mem a h;
        },
      )
