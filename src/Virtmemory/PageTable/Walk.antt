-- ===== src/Virtmemory/PageTable/Walk.antt =====
-- `walk`: it finds the leaf entry of an address, and adds a table where there is none.
use rust_baremetal.Prelude.{
  ℕ, ◌+◌, ◌*◌, ◌/◌, ◌%◌, ◌<◌, ◌≡◌, ◌≢◌, ◌∙◌, ◌⊎◌, inl, inr, refl, arith, true, false, Bool-cases,
  ◌==◌, ==_iff, Option, none, some,
}
use rust_baremetal.Prelude.Word.{word_mod, ◌<<◌}
use rust_baremetal.Machine.{Machine, alloc, page_layout}
use rust_baremetal.Machine.Outcome.{done, Ends, returned}
use rust_baremetal.Machine.Heap.{HeapAllocator}
use rust_baremetal.Machine.Memory.{read_word-lt}
use rust_baremetal.Machine.Frames.{IsPage, Exhausted, Keeps, Fresh, Fresh-apart, alloc_lem}
use rust_baremetal.Virtmemory.Pte.{from_word}
use rust_baremetal.Virtmemory.Pte.Codec.{from_word-IsDecoded, va_from_fields}
use rust_baremetal.Virtmemory.PageTable.{WalkType, alloc_tables, only_walk, walk, add_table}
use rust_baremetal.Virtmemory.PageTable.Grow.{
  with_table, grown-IsTree, lookup-grown, new_entry, new_target,
}
use rust_baremetal.Virtmemory.PageTable.View.{
  entry, target, lookup, slot, IsTree, Keeps-IsTree, Keeps-lookup, Keeps-word,
}

pub decoded_v : (n : ℕ) → n < word_mod → n % 2 ≡ 1 → (from_word n).v ≡ true
decoded_v n h v = ground (arith, from_word-IsDecoded n h)

pub decoded_not_v : (n : ℕ) → n < word_mod → n % 2 ≢ 1 → (from_word n).v ≡ false
decoded_not_v n h v = ground (arith, from_word-IsDecoded n h)

pub decoded_target :
    (n : ℕ) → n < word_mod → target n < word_mod → (from_word n).ppn << 12 ≡ target n
decoded_target n h v = omega (arith, (from_word-IsDecoded n h).ppn)

module _ (H : HeapAllocator) {s : Machine H} {root : ℕ} (tree : IsTree H s root) (va : ℕ)
    (fits : va < word_mod) where
  abbrev top : ℕ
  top = entry s.mem root (va / 4194304)

  top-lt : top < word_mod
  top-lt = read_word-lt s.mem (root + 4 * (va / 4194304))

  module _ (v : top % 2 ≡ 1) where
    target_page : IsPage H s.heap (target top)
    target_page = tree.page (va / 4194304) (omega arith) v

    target-lt : target top < word_mod
    target-lt = omega (arith, target_page.below, H.hi_le)

    target_not_null : (target top == 0) ≡ false
    target_not_null = ground (arith, H.lo_pos, target_page.above)

    -- Where there is a table, `walk` returns the address of the leaf entry and changes nothing.
    pub walk-valid :
        (walk_type : WalkType) → walk H root va walk_type s ≡ done (some (slot s.mem root va)) s
    unfolding walk
    walk-valid walk_type =
        let fields = va_from_fields va fits in
        rw (fields.0, decoded_v top top-lt v, decoded_target top top-lt target-lt, target_not_null)
          (rw fields.1 refl)

  -- Where there is none, `walk` on its own says so.
  pub walk-none : top % 2 ≢ 1 → walk H root va only_walk s ≡ done none s
  unfolding walk add_table
  walk-none v = rw ((va_from_fields va fits).0, decoded_not_v top top-lt v) refl

-- What `walk` leaves when it may add a table: the tree is well formed, translates as before, and
-- the address that it returns is that of the leaf entry.
pub record Walked (H : HeapAllocator) (s u : Machine H) (root va : ℕ) (found : Option ℕ)
    : Type 0 where
  pub tree : IsTree H u root
  pub same : (va' : ℕ) → va' < word_mod → lookup u.mem root va' ≡ lookup s.mem root va'
  pub valid : (p : ℕ) → found ≡ some p → entry u.mem root (va / 4194304) % 2 ≡ 1
  pub address : (p : ℕ) → found ≡ some p → p ≡ slot u.mem root va

module _ (H : HeapAllocator) {s : Machine H} {root : ℕ} (tree : IsTree H s root) (va : ℕ)
    (fits : va < word_mod) where
  abbrev index : ℕ
  index = va / 4194304

  -- No page was left.
  Walked-none : {t : Machine H} → Keeps H s t → Walked H s t root va none
  Walked-none keeps = record {
    tree = Keeps-IsTree H keeps tree;
    same = Keeps-lookup H keeps tree;
    valid = λ p e. cc;
    address = λ p e. cc;
  }

  module _ {t : Machine H} {p : ℕ} (fresh : Fresh H s t p)
      (v : entry s.mem root index % 2 ≢ 1) where
    pub same_entries : (j : ℕ) → j < 1024 → entry t.mem root j ≡ entry s.mem root j
    same_entries j h =
        Keeps-word H fresh.keeps (root + 4 * j) tree.root_page (omega arith) (omega arith)

    pub not_table :
        (j : ℕ) → j < 1024 → entry t.mem root j % 2 ≡ 1 → target (entry t.mem root j) ≢ p
    not_table j h = rw (same_entries j h) λ v. Fresh-apart H fresh (tree.page j h v)

    -- The fresh page is the new table.
    Walked-some :
        Walked H s
          (record t { mem = with_table t.mem root index p })
          root
          va
          (some (p + 4 * (va / 4096 % 1024)))
    Walked-some =
        let tree' = Keeps-IsTree H fresh.keeps tree in
        let small : index < 1024 = omega arith in
        let empty : entry t.mem root index % 2 ≢ 1 = rw (same_entries index small) v in
        let not_root : root ≢ p = Fresh-apart H fresh tree.root_page in
        let page = fresh.page in
        record {
          tree = grown-IsTree H tree' index p small empty page not_root not_table;
          same = λ va' h.
              lookup-grown H tree' index p small empty page not_root not_table va' h
              ∙ Keeps-lookup H fresh.keeps tree va' h;
          valid = λ q e.
              rw (new_entry H tree' index p small empty page not_root not_table) (omega arith);
          address = λ q e. rw (new_target H tree' index p small empty page not_root not_table) (cc);
        }

  walk-grow :
      (p : ℕ) (t : Machine H)
      → alloc H page_layout s ≡ done p t
      → Keeps H s t
      → ((p ≡ 0) × Exhausted H s ⊎ Fresh H s t p)
      → entry s.mem root index % 2 ≢ 1
      → Ends (λ found u. Walked H s u root va found) (λ _. ⊥) (walk H root va alloc_tables s)
  unfolding walk add_table
  walk-grow p t got keeps fresh v =
      let fields = va_from_fields va fits in
      rw (fields.0, decoded_not_v _ (read_word-lt s.mem _) v, got)
        (elim fresh [
          | inl null ↦ rw null.0 (returned (Walked-none keeps))
          | inr f ↦
              let not_null : (p == 0) ≡ false = ground (arith, H.lo_pos, f.page.above) in
              rw not_null (rw fields.1 (returned (Walked-some f v)))
        ])

  -- `walk` with `Alloc` always returns.
  pub walk-Walked :
      Ends (λ found u. Walked H s u root va found) (λ _. ⊥) (walk H root va alloc_tables s)
  walk-Walked = elim (Bool-cases (entry s.mem root (va / 4194304) % 2 == 1)) [
    | inl v ↦
        let is_valid = (==_iff _ 1).0 v in
        rw (walk-valid H tree va fits is_valid alloc_tables) (
          returned (record {
            tree = tree;
            same = λ _ _. refl;
            valid = λ p e. is_valid;
            address = λ p e. cc;
          }))
    | inr n ↦
        let (p, t, got, keeps, fresh) = alloc_lem H s in
        walk-grow p t got keeps fresh (ground arith)
  ]
