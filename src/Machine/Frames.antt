-- ===== src/Machine/Frames.antt =====
-- What `alloc` and `dealloc` do to the machine, from the laws of the heap.
use rust_baremetal.Prelude.{
  ℕ, ◌+◌, ◌%◌, ◌≤◌, ◌≡◌, ◌∙◌, ◌≢◌, sym, ◌⊎◌, inl, inr, refl, ap, arith, true, false, none, some,
  Option-cases, ◌==◌,
}
use mathlib.Core.Bool.{false≢true}
use rust_baremetal.Hart.{after_push}
use rust_baremetal.Hart.Nesting.{after_pop, pop_after_push}
use rust_baremetal.Machine.{Machine, alloc, dealloc, or_null, page_layout}
use rust_baremetal.Machine.Outcome.{done}
use rust_baremetal.Machine.Heap.{HeapAllocator, InPage, OutsidePage}

page_cases : (p a : ℕ) → InPage p a ⊎ OutsidePage p a
page_cases p a = grind arith

module _ (H : HeapAllocator) where
  open H use {State, is_free, lo, hi}

  -- A byte that somebody holds.
  abbrev pub Held : State → ℕ → Type 0
  Held h a = is_free h a ≡ false

  -- A page of the heap that somebody holds.
  pub record IsPage (h : State) (p : ℕ) : Type 0 where
    pub aligned : p % 4096 ≡ 0
    pub above : lo ≤ p
    pub below : p + 4096 ≤ hi
    pub held : (a : ℕ) → InPage p a → Held h a

  -- Nothing that was held is free or has changed.
  pub record Keeps (s t : Machine H) : Type 0 where
    pub held : (a : ℕ) → Held s.heap a → Held t.heap a
    pub mem : (a : ℕ) → Held s.heap a → t.mem a ≡ s.mem a

  pub record Fresh (s t : Machine H) (p : ℕ) : Type 0 where
    pub page : IsPage t.heap p
    pub was_free : (a : ℕ) → InPage p a → is_free s.heap a ≡ true
    pub keeps : Keeps s t

  -- The heap has no page left.
  abbrev pub Exhausted : Machine H → Type 0
  Exhausted s = (H.inner_alloc page_layout s.heap s.mem).0 ≡ none

  -- The state after `alloc` of a page.
  abbrev after_alloc : Machine H → Machine H
  after_alloc s =
      let got = H.inner_alloc page_layout s.heap s.mem in
      record { mem = got.2; heap = got.1; hart = after_pop (after_push s.hart) }

  alloc_done :
      (s : Machine H)
      → alloc H page_layout s
        ≡ done (or_null H (H.inner_alloc page_layout s.heap s.mem).0) (after_alloc s)
  unfolding alloc
  alloc_done s = rw (pop_after_push s.hart) refl

  after_alloc-Fresh :
      (s : Machine H) (p : ℕ)
      → (H.inner_alloc page_layout s.heap s.mem).0 ≡ some p
      → Fresh s (after_alloc s) p
  after_alloc-Fresh s p e =
      let laws = H.alloc-some s.heap s.mem p e in
      record {
        page = record { aligned = laws.0; above = laws.1; below = laws.2; held = laws.4 };
        was_free = laws.3;
        keeps = record {
          held = λ a h. elim (page_cases p a) [
            | inl inside ↦ laws.4 a inside
            | inr outside ↦ laws.5 a outside ∙ h
          ];
          mem = λ a h. H.alloc-mem s.heap s.mem a h;
        };
      }

  -- `alloc` of a page returns null or a fresh page, and leaves what is held alone.
  pub alloc_lem :
      (s : Machine H)
      → (p : ℕ) × (t : Machine H) × (alloc H page_layout s ≡ done p t)
        × Keeps s t
        × ((p ≡ 0) × Exhausted s ⊎ Fresh s t p)
  alloc_lem s = elim (Option-cases (H.inner_alloc page_layout s.heap s.mem).0) [
    | inl e ↦ (
      0,
      after_alloc s,
      alloc_done s ∙ ap (λ o. done (or_null H o) (after_alloc s)) e,
      record {
        held = λ a h. H.alloc-none s.heap s.mem e a ∙ h;
        mem = λ a h. H.alloc-mem s.heap s.mem a h;
      },
      inl (refl, e),
    )
    | inr (p, e) ↦
        let fresh = after_alloc-Fresh s p e in
        (
          p,
          after_alloc s,
          alloc_done s ∙ ap (λ o. done (or_null H o) (after_alloc s)) e,
          fresh.keeps,
          inr fresh,
        )
  ]

  -- `p` is given back, and nothing else that is held is free or has changed.
  pub record Freed (s t : Machine H) (p : ℕ) : Type 0 where
    pub released : (a : ℕ) → InPage p a → is_free t.heap a ≡ true
    pub free_else : (a : ℕ) → OutsidePage p a → is_free t.heap a ≡ is_free s.heap a
    pub mem_else : (a : ℕ) → OutsidePage p a → Held s.heap a → t.mem a ≡ s.mem a

  abbrev after_dealloc : Machine H → ℕ → Machine H
  after_dealloc s p =
      let left = H.inner_dealloc p page_layout s.heap s.mem in
      record { mem = left.1; heap = left.0; hart = after_pop (after_push s.hart) }

  -- `dealloc` of a page that is held never panics.
  pub dealloc_lem :
      (s : Machine H) (p : ℕ)
      → IsPage s.heap p
      → (t : Machine H) × (dealloc H p page_layout s ≡ done tt t) × Freed s t p
  unfolding dealloc
  dealloc_lem s p page =
      let laws = H.dealloc-page s.heap s.mem p page.aligned page.above page.below page.held in
      let not_null : (p == 0) ≡ false = ground (arith, H.lo_pos, page.above) in
      (
        after_dealloc s p,
        rw (not_null) (rw (pop_after_push s.hart) refl),
        record { released = laws.0; free_else = laws.1; mem_else = laws.2 },
      )

  -- A page that was held is not the fresh one.
  pub Fresh-apart : {s t : Machine H} {p q : ℕ} → Fresh s t p → IsPage s.heap q → q ≢ p
  Fresh-apart {p} {q} fresh page e =
      false≢true (sym (page.held q (omega arith)) ∙ fresh.was_free q (omega arith))

  -- What was held lies outside the fresh page.
  pub Fresh-outside :
      {s t : Machine H} {p : ℕ} → Fresh s t p → (a : ℕ) → Held s.heap a → OutsidePage p a
  Fresh-outside {p} fresh a h = elim (page_cases p a) [
    | inl inside ↦ absurd (false≢true (sym h ∙ fresh.was_free a inside))
    | inr outside ↦ outside
  ]
