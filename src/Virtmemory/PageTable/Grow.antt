-- ===== src/Virtmemory/PageTable/Grow.antt =====
-- Adding an empty table of the second level changes no translation.
use rust_baremetal.Prelude.{ℕ, ◌+◌, ◌*◌, ◌/◌, ◌%◌, ◌≤◌, ◌<◌, ◌≡◌, ◌≢◌, ◌∙◌, sym, arith}
use native.Mathlib.Decide.{ℕ_discrete}
use rust_baremetal.Prelude.Word.{word_mod}
use rust_baremetal.Machine.{Machine}
use rust_baremetal.Machine.Heap.{HeapAllocator}
use rust_baremetal.Machine.Memory.{
  Mem, read_word, write_word, write_zeros, read-write_self, read-write_apart, read-zeros_apart,
  read-zeros_inside,
}
use rust_baremetal.Machine.Frames.{IsPage}
use rust_baremetal.Virtmemory.Pte.{table_entry}
use rust_baremetal.Virtmemory.Pte.Codec.{table_entry_sum}
use rust_baremetal.Virtmemory.PageTable.View.{
  entry, target, lookup, slot, IsTree, lookup-valid, lookup-invalid, lookup_cong,
}

-- Memory after the page `p` has become the table of entry `i`.
abbrev pub with_table : Mem → ℕ → ℕ → ℕ → Mem
with_table m root i p = write_word (write_zeros m p 4096) (root + 4 * i) (table_entry p)

module _ (H : HeapAllocator) {t : Machine H} {root : ℕ} (tree : IsTree H t root) (i p : ℕ)
    (i_lt : i < 1024) (empty : entry t.mem root i % 2 ≢ 1) (page : IsPage H t.heap p)
    (not_root : root ≢ p)
    (not_table : (j : ℕ)
      → j < 1024
      → entry t.mem root j % 2 ≡ 1
      → target (entry t.mem root j) ≢ p) where
  abbrev grown : Mem
  grown = with_table t.mem root i p

  elsewhere :
      (q b : ℕ)
      → b % 4096 ≡ 0
      → b ≢ p
      → b ≢ root
      → b ≤ q
      → q + 4 ≤ b + 4096
      → read_word grown q ≡ read_word t.mem q
  elsewhere q b al np nr lo hi =
      read-write_apart (write_zeros t.mem p 4096) (root + 4 * i) q (table_entry p)
        (grind (arith, tree.root_page.aligned))
      ∙ read-zeros_apart t.mem p 4096 q (grind (arith, page.aligned))

  pub same_entry : (j : ℕ) → j < 1024 → j ≢ i → entry grown root j ≡ entry t.mem root j
  same_entry j h ne =
      read-write_apart (write_zeros t.mem p 4096) (root + 4 * i) (root + 4 * j) (table_entry p)
        (grind arith)
      ∙ read-zeros_apart t.mem p 4096 (root + 4 * j)
          (grind (arith, page.aligned, tree.root_page.aligned))

  pub new_entry : entry grown root i ≡ p / 4096 * 1024 + 1
  new_entry =
      let fits : p < word_mod = omega (arith, page.below, H.hi_le) in
      rw (table_entry_sum p fits)
        (read-write_self (write_zeros t.mem p 4096) (root + 4 * i) _ (omega arith))

  pub new_target : target (entry grown root i) ≡ p
  new_target = rw new_entry (omega (arith, page.aligned))

  -- The tree with the new table is well formed.
  pub grown-IsTree : IsTree H (record t { mem = grown }) root
  grown-IsTree = record {
    root_page = tree.root_page;
    inner = λ j h. elim (ℕ_discrete j i) [
      | yes e ↦ rw (e, new_entry) λ v. omega arith
      | no ne ↦ rw (same_entry j h ne) (tree.inner j h)
    ];
    page = λ j h. elim (ℕ_discrete j i) [
      | yes e ↦ rw (e, new_target) λ v. page
      | no ne ↦ rw (same_entry j h ne) (tree.page j h)
    ];
    not_root = λ j h. elim (ℕ_discrete j i) [
      | yes e ↦ rw (e, new_target) λ v x. not_root (sym x)
      | no ne ↦ rw (same_entry j h ne) (tree.not_root j h)
    ];
    apart = λ j k hj hk. elim (ℕ_discrete j i) [
      | yes e ↦ elim (ℕ_discrete k i) [
        | yes d ↦ λ _ _ _. e ∙ sym d
        | no nd ↦ rw (e, new_target, same_entry k hk nd) λ _ v x. absurd (not_table k hk v (sym x))
      ]
      | no ne ↦ elim (ℕ_discrete k i) [
        | yes d ↦ rw (d, new_target, same_entry j hj ne) λ v _ x. absurd (not_table j hj v x)
        | no nd ↦ rw (same_entry j hj ne, same_entry k hk nd) (tree.apart j k hj hk)
      ]
    ];
  }

  all_zeros : (k : ℕ) → k < 1024 → read_word grown (p + 4 * k) ≡ 0
  all_zeros k h =
      read-write_apart (write_zeros t.mem p 4096) (root + 4 * i) (p + 4 * k) (table_entry p)
        (grind (arith, page.aligned, tree.root_page.aligned))
      ∙ read-zeros_inside t.mem p 4096 (p + 4 * k) (omega arith) (omega arith)

  lookup_new : (va : ℕ) → va / 4194304 ≡ i → lookup grown root va ≡ lookup t.mem root va
  lookup_new va e =
      rw
        (
          lookup-valid grown root va (rw (e, new_entry) (omega arith)),
          lookup-invalid t.mem root va (rw e empty),
        )
        (rw (e, new_target) (all_zeros (va / 4096 % 1024) (omega arith)))

  lookup_old :
      (va : ℕ) → va < word_mod → va / 4194304 ≢ i → lookup grown root va ≡ lookup t.mem root va
  lookup_old va h ne =
      let j = va / 4194304 in
      lookup_cong t.mem root va grown (same_entry j (omega arith) ne) (λ v.
        elsewhere (slot t.mem root va) (target (entry t.mem root j)) (omega arith)
          (not_table j (omega arith) v) (tree.not_root j (omega arith) v) (omega arith)
          (omega arith))

  -- Every address translates as before: the new table is all zeros.
  pub lookup-grown : (va : ℕ) → va < word_mod → lookup grown root va ≡ lookup t.mem root va
  lookup-grown va h = elim (ℕ_discrete (va / 4194304) i) [
    | yes e ↦ lookup_new va e
    | no ne ↦ lookup_old va h ne
  ]
