-- ===== src/Virtmemory/PageTable/Kept.antt =====
-- A page table outlives the release of any page that is none of its own.
use rust_baremetal.Prelude.{ℕ, ◌+◌, ◌*◌, ◌/◌, ◌%◌, ◌≤◌, ◌<◌, ◌≡◌, ◌≢◌, ◌∙◌, arith}
use rust_baremetal.Prelude.Word.{word_mod}
use rust_baremetal.Machine.{Machine}
use rust_baremetal.Machine.Heap.{HeapAllocator}
use rust_baremetal.Machine.Memory.{read_word, read_word_cong}
use rust_baremetal.Machine.Frames.{IsPage, Freed}
use rust_baremetal.Virtmemory.PageTable.View.{entry, target, lookup, slot, IsTree, lookup_cong}

module _ (H : HeapAllocator) where
  -- The page `q` is still held, with the same words.
  pub record PageKept (s t : Machine H) (q : ℕ) : Type 0 where
    pub page : IsPage H t.heap q
    pub word : (a : ℕ) → q ≤ a → a + 4 ≤ q + 4096 → read_word t.mem a ≡ read_word s.mem a

  pub Freed-PageKept :
      {s t : Machine H} {p q : ℕ}
      → Freed H s t p
      → p % 4096 ≡ 0
      → IsPage H s.heap q
      → q ≢ p
      → PageKept s t q
  Freed-PageKept {s} {t} {p} {q} freed al page ne = record {
    page = record {
      aligned = page.aligned;
      above = page.above;
      below = page.below;
      held = λ a h. freed.free_else a (grind (arith, page.aligned)) ∙ page.held a h;
    };
    word = λ a lo hi. read_word_cong s.mem t.mem a (λ b l h.
        freed.mem_else b (grind (arith, page.aligned)) (page.held b (omega arith, omega arith)));
  }

  module _ {s t : Machine H} {root : ℕ} (tree : IsTree H s root) (root_kept : PageKept s t root)
      (tables_kept : (i : ℕ)
        → i < 1024
        → entry s.mem root i % 2 ≡ 1
        → PageKept s t (target (entry s.mem root i))) where
    pub kept_entry : (i : ℕ) → i < 1024 → entry t.mem root i ≡ entry s.mem root i
    kept_entry i h = root_kept.word (root + 4 * i) (omega arith) (omega arith)

    pub kept-IsTree : IsTree H t root
    kept-IsTree = record {
      root_page = root_kept.page;
      inner = λ i h. rw (kept_entry i h) (tree.inner i h);
      page = λ i h. rw (kept_entry i h) λ v. (tables_kept i h v).page;
      not_root = λ i h. rw (kept_entry i h) (tree.not_root i h);
      apart = λ i j h k. rw (kept_entry i h, kept_entry j k) (tree.apart i j h k);
    }

    pub kept-lookup : (va : ℕ) → va < word_mod → lookup t.mem root va ≡ lookup s.mem root va
    kept-lookup va h =
        lookup_cong s.mem root va t.mem (kept_entry (va / 4194304) (omega arith)) (λ v.
          (tables_kept (va / 4194304) (omega arith) v).word (slot s.mem root va) (omega arith)
            (omega arith))
