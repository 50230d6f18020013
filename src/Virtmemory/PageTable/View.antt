-- ===== src/Virtmemory/PageTable/View.antt =====
-- What a page table means: the two-level lookup of the Sv32 hardware, in arithmetic, and when a
-- table is well formed.
use rust_baremetal.Prelude.{
  ℕ, ◌+◌, ◌*◌, ◌/◌, ◌%◌, ◌≤◌, ◌<◌, ◌≡◌, ◌≢◌, inl, inr, refl, arith, Bool-cases, ==_iff, ◌==◌,
  if◌then◌else◌,
}
use rust_baremetal.Prelude.Word.{word_mod}
use rust_baremetal.Machine.{Machine}
use rust_baremetal.Machine.Heap.{HeapAllocator}
use rust_baremetal.Machine.Memory.{Mem, read_word, read_word_cong}
use rust_baremetal.Machine.Frames.{IsPage, Keeps}

-- Entry `i` of the table at `root`.
abbrev pub entry : Mem → ℕ → ℕ → ℕ
entry m root i = read_word m (root + 4 * i)

-- The table that a valid entry points at.
abbrev pub target : ℕ → ℕ
target word = word / 1024 * 4096

-- The leaf entry for an address; 0 where there is no table of the second level.
pub lookup : Mem → ℕ → ℕ → ℕ
lookup m root va =
    let e = entry m root (va / 4194304) in
    if e % 2 == 1 then read_word m (target e + 4 * (va / 4096 % 1024)) else 0

-- The address of the leaf entry for `va`.
abbrev pub slot : Mem → ℕ → ℕ → ℕ
slot m root va = target (entry m root (va / 4194304)) + 4 * (va / 4096 % 1024)

module _ (m : Mem) (root va : ℕ) where
  pub lookup-valid :
      entry m root (va / 4194304) % 2 ≡ 1 → lookup m root va ≡ read_word m (slot m root va)
  unfolding lookup
  lookup-valid v = rw ((==_iff _ 1).1 v) refl

  pub lookup-invalid : entry m root (va / 4194304) % 2 ≢ 1 → lookup m root va ≡ 0
  unfolding lookup
  lookup-invalid v = ground arith

  -- One page has one entry.
  pub lookup_same_page : (va' : ℕ) → va' / 4096 ≡ va / 4096 → lookup m root va' ≡ lookup m root va
  unfolding lookup
  lookup_same_page va' e = let top : va' / 4194304 ≡ va / 4194304 = omega arith in rw (top, e) refl

  -- The lookup reads two words.
  pub lookup_cong :
      (g : Mem)
      → entry g root (va / 4194304) ≡ entry m root (va / 4194304)
      → (entry m root (va / 4194304) % 2 ≡ 1
          → read_word g (slot m root va) ≡ read_word m (slot m root va))
      → lookup g root va ≡ lookup m root va
  unfolding lookup
  lookup_cong g same leaf = rw same (elim (Bool-cases (entry m root (va / 4194304) % 2 == 1)) [
    | inl v ↦ rw v (leaf ((==_iff _ 1).0 v))
    | inr n ↦ rw n refl
  ])

module _ (H : HeapAllocator) where
  -- The root and the tables of the second level are pages of the heap that are held, no two of
  -- them the same; a valid entry of the root has no other flag set.
  pub record IsTree (s : Machine H) (root : ℕ) : Type 0 where
    pub root_page : IsPage H s.heap root
    pub inner : (i : ℕ) → i < 1024 → entry s.mem root i % 2 ≡ 1 → entry s.mem root i % 1024 ≡ 1
    pub page :
        (i : ℕ)
        → i < 1024
        → entry s.mem root i % 2 ≡ 1
        → IsPage H s.heap (target (entry s.mem root i))
    pub not_root :
        (i : ℕ) → i < 1024 → entry s.mem root i % 2 ≡ 1 → target (entry s.mem root i) ≢ root
    pub apart :
        (i j : ℕ)
        → i < 1024
        → j < 1024
        → entry s.mem root i % 2 ≡ 1
        → entry s.mem root j % 2 ≡ 1
        → target (entry s.mem root i) ≡ target (entry s.mem root j)
        → i ≡ j

  module _ {s t : Machine H} (keeps : Keeps H s t) where
    pub Keeps-IsPage : {p : ℕ} → IsPage H s.heap p → IsPage H t.heap p
    Keeps-IsPage page = record {
      aligned = page.aligned;
      above = page.above;
      below = page.below;
      held = λ a h. keeps.held a (page.held a h);
    }

    -- A word of a page that is held.
    pub Keeps-word :
        {p : ℕ} (q : ℕ)
        → IsPage H s.heap p
        → p ≤ q
        → q + 4 ≤ p + 4096
        → read_word t.mem q ≡ read_word s.mem q
    Keeps-word q page h k =
        read_word_cong s.mem t.mem q
          (λ a lo hi. keeps.mem a (page.held a (omega arith, omega arith)))

    pub Keeps-IsTree : {root : ℕ} → IsTree s root → IsTree t root
    Keeps-IsTree {root} tree = record {
      root_page = Keeps-IsPage tree.root_page;
      inner = λ i h. rw (same i h) (tree.inner i h);
      page = λ i h. rw (same i h) λ v. Keeps-IsPage (tree.page i h v);
      not_root = λ i h. rw (same i h) (tree.not_root i h);
      apart = λ i j h k. rw (same i h, same j k) (tree.apart i j h k);
    }
      where
        same : (i : ℕ) → i < 1024 → entry t.mem root i ≡ entry s.mem root i
        same i h = Keeps-word (root + 4 * i) tree.root_page (omega arith) (omega arith)

    pub Keeps-lookup :
        {root : ℕ}
        → IsTree s root
        → (va : ℕ) → va < word_mod
        → lookup t.mem root va ≡ lookup s.mem root va
    Keeps-lookup {root} tree va h =
        lookup_cong s.mem root va t.mem
          (Keeps-word (root + 4 * (va / 4194304)) tree.root_page (omega arith) (omega arith))
          (λ v.
            Keeps-word (slot s.mem root va) (tree.page (va / 4194304) (omega arith) v) (omega arith)
              (omega arith))

  -- Well-formedness is a matter of the root's entries.
  pub same_entries-IsTree :
      {s : Machine H} {root : ℕ} (g : Mem)
      → IsTree s root
      → ((j : ℕ) → j < 1024 → entry g root j ≡ entry s.mem root j)
      → IsTree (record s { mem = g }) root
  same_entries-IsTree g tree same = record {
    root_page = tree.root_page;
    inner = λ i h. rw (same i h) (tree.inner i h);
    page = λ i h. rw (same i h) (tree.page i h);
    not_root = λ i h. rw (same i h) (tree.not_root i h);
    apart = λ i j h k. rw (same i h, same j k) (tree.apart i j h k);
  }
