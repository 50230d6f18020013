-- ===== src/Virtmemory/PageTable/New.antt =====
-- `PageTable::new`: an empty table on a fresh page.
use rust_baremetal.Prelude.{
  ℕ, ◌+◌, ◌*◌, ◌/◌, ◌%◌, ◌<◌, ◌≡◌, ◌≢◌, ◌∙◌, ◌⊎◌, inl, inr, refl, arith, true, false, ◌==◌,
}
use rust_baremetal.Machine.{Machine, alloc, page_layout}
use rust_baremetal.Machine.Outcome.{done, panic}
use rust_baremetal.Machine.Heap.{HeapAllocator, InPage}
use rust_baremetal.Machine.Memory.{read-zeros_inside, write_zeros_apart, write_zeros}
use rust_baremetal.Machine.Frames.{IsPage, Exhausted, Fresh, Fresh-outside, Keeps, alloc_lem}
use rust_baremetal.Virtmemory.PageTable.{new}
use rust_baremetal.Virtmemory.PageTable.View.{lookup-invalid, entry}
use rust_baremetal.Virtmemory.PageTable.Map.{Shows}

-- A held page of zeros is a table that maps nothing.
module _ (H : HeapAllocator) (t : Machine H) (root : ℕ) (page : IsPage H t.heap root)
    (empty : (i : ℕ) → i < 1024 → entry t.mem root i ≡ 0) where
  not_valid : (i : ℕ) → i < 1024 → entry t.mem root i % 2 ≢ 1
  not_valid i h v = omega (arith, empty i h)

  pub Shows-zero : Shows H root (λ _. 0) t
  Shows-zero = record {
    tree = record {
      root_page = page;
      inner = λ i h v. absurd (not_valid i h v);
      page = λ i h v. absurd (not_valid i h v);
      not_root = λ i h v. absurd (not_valid i h v);
      apart = λ i j h k v. absurd (not_valid i h v);
    };
    view = λ va h. lookup-invalid t.mem root va (not_valid (va / 4194304) (omega arith));
  }

module _ (H : HeapAllocator) (s : Machine H) where
  -- What `new` returns: no address is mapped, and nothing that was held has changed.
  pub record Made (root : ℕ) (t : Machine H) : Type 0 where
    pub shows : Shows H root (λ _. 0) t
    pub keeps : Keeps H s t
    pub empty : (i : ℕ) → i < 1024 → entry t.mem root i ≡ 0
    pub was_free : (a : ℕ) → InPage root a → H.is_free s.heap a ≡ true

  module _ {p : ℕ} {t : Machine H} (fresh : Fresh H s t p) where
    abbrev cleared : Machine H
    cleared = record t { mem = write_zeros t.mem p 4096 }

    empty : (i : ℕ) → i < 1024 → entry cleared.mem p i ≡ 0
    empty i h = read-zeros_inside t.mem p 4096 (p + 4 * i) (omega arith) (omega arith)

    Made-cleared : Made p cleared
    Made-cleared = record {
      shows = Shows-zero H cleared p fresh.page empty;
      empty = empty;
      was_free = fresh.was_free;
      keeps = record {
        held = fresh.keeps.held;
        mem = λ a h.
            write_zeros_apart t.mem p 4096 a (grind (arith, Fresh-outside H fresh a h))
            ∙ fresh.keeps.mem a h;
      };
    }

  new_from :
      (p : ℕ) (t : Machine H)
      → alloc H page_layout s ≡ done p t
      → ((p ≡ 0) × Exhausted H s ⊎ Fresh H s t p)
      → (new H s ≡ panic) × Exhausted H s
        ⊎ ((root : ℕ) × (t : Machine H) × (new H s ≡ done root t) × Made root t)
  unfolding new
  new_from p t got (inl (null, none_left)) = inl (rw (got, null) refl, none_left)
  new_from p t got (inr fresh) =
      let not_null : (p == 0) ≡ false = ground (arith, H.lo_pos, fresh.page.above) in
      inr (p, cleared fresh, rw got (rw not_null refl), Made-cleared fresh)

  -- `new` returns a well-formed table that maps nothing, in a page that nobody held, or panics
  -- because the heap has no page left.
  pub new-Made :
      (new H s ≡ panic) × Exhausted H s
      ⊎ ((root : ℕ) × (t : Machine H) × (new H s ≡ done root t) × Made root t)
  new-Made = let (p, t, got, _, fresh) = alloc_lem H s in new_from p t got fresh
