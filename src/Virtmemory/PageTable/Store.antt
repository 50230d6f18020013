-- ===== src/Virtmemory/PageTable/Store.antt =====
-- Writing a leaf entry changes the translation of its own page and no other.
use rust_baremetal.Prelude.{
  ℕ, ◌+◌, ◌*◌, ◌/◌, ◌%◌, ◌≤◌, ◌<◌, ◌≡◌, ◌≢◌, ◌⊎◌, inl, inr, sym, arith, Bool-cases, ◌==◌, ==_iff,
  if◌then◌else◌,
}
use native.Mathlib.Decide.{ℕ_discrete}
use rust_baremetal.Prelude.Word.{word_mod}
use rust_baremetal.Machine.{Machine}
use rust_baremetal.Machine.Heap.{HeapAllocator}
use rust_baremetal.Machine.Memory.{Mem, write_word, read-write_self, read-write_apart}
use rust_baremetal.Machine.Frames.{IsPage}
use rust_baremetal.Virtmemory.PageTable.View.{
  entry, target, lookup, slot, IsTree, lookup-valid, lookup_cong, same_entries-IsTree,
}

-- Two words of one table, and two words of two tables.
words_apart : (b k l : ℕ) → k ≢ l → (b + 4 * k + 4 ≤ b + 4 * l) ⊎ (b + 4 * l + 4 ≤ b + 4 * k)
words_apart b k l ne = grind arith

tables_apart :
    (x y k l : ℕ)
    → k < 1024
    → l < 1024
    → x * 4096 ≢ y * 4096
    → (x * 4096 + 4 * k + 4 ≤ y * 4096 + 4 * l) ⊎ (y * 4096 + 4 * l + 4 ≤ x * 4096 + 4 * k)
tables_apart x y k l hk hl ne = grind arith

module _ (H : HeapAllocator) {u : Machine H} {root : ℕ} (tree : IsTree H u root) (va : ℕ)
    (fits : va < word_mod) (valid : entry u.mem root (va / 4194304) % 2 ≡ 1) (w : ℕ)
    (w_lt : w < word_mod) where
  abbrev stored : Mem
  stored = write_word u.mem (slot u.mem root va) w

  table : IsPage H u.heap (target (entry u.mem root (va / 4194304)))
  table = tree.page (va / 4194304) (omega arith) valid

  pub stored-entry : (j : ℕ) → j < 1024 → entry stored root j ≡ entry u.mem root j
  stored-entry j h =
      let other = tree.not_root (va / 4194304) (omega arith) valid in
      read-write_apart u.mem (slot u.mem root va) (root + 4 * j) w
        (grind (arith, tree.root_page.aligned))

  pub stored-IsTree : IsTree H (record u { mem = stored }) root
  stored-IsTree = same_entries-IsTree H stored tree stored-entry

  lookup-stored_self : (va' : ℕ) → va' / 4096 ≡ va / 4096 → lookup stored root va' ≡ w
  lookup-stored_self va' e =
      let i : va' / 4194304 ≡ va / 4194304 = omega arith in
      rw (lookup-valid stored root va' (rw (i, stored-entry (va / 4194304) (omega arith)) valid))
        (rw (i, stored-entry (va / 4194304) (omega arith), e) (read-write_self u.mem _ w w_lt))

  slots_apart :
      (va' : ℕ)
      → va' < word_mod
      → va' / 4096 ≢ va / 4096
      → entry u.mem root (va' / 4194304) % 2 ≡ 1
      → (slot u.mem root va + 4 ≤ slot u.mem root va')
        ⊎ (slot u.mem root va' + 4 ≤ slot u.mem root va)
  slots_apart va' h ne v =
      let i = va / 4194304 in
      let j = va' / 4194304 in
      let k = va / 4096 % 1024 in
      let l = va' / 4096 % 1024 in
      let x = entry u.mem root i / 1024 in
      elim (ℕ_discrete j i) [
        | yes e ↦ rw e (words_apart (x * 4096) k l (omega arith))
        | no n ↦
            tables_apart x (entry u.mem root j / 1024) k l (omega arith) (omega arith)
              (λ same. n (sym (tree.apart i j (omega arith) (omega arith) valid v same)))
      ]

  lookup-stored_other :
      (va' : ℕ)
      → va' < word_mod
      → va' / 4096 ≢ va / 4096
      → lookup stored root va' ≡ lookup u.mem root va'
  lookup-stored_other va' h ne =
      lookup_cong u.mem root va' stored (stored-entry (va' / 4194304) (omega arith)) (λ v.
        read-write_apart u.mem (slot u.mem root va) (slot u.mem root va') w
          (slots_apart va' h ne v))

  pub lookup-stored :
      (va' : ℕ)
      → va' < word_mod
      → lookup stored root va' ≡ (if va' / 4096 == va / 4096 then w else lookup u.mem root va')
  lookup-stored va' h = elim (Bool-cases (va' / 4096 == va / 4096)) [
    | inl e ↦ rw e (lookup-stored_self va' ((==_iff _ _).0 e))
    | inr n ↦ rw n (lookup-stored_other va' h (ground arith))
  ]
