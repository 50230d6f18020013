-- ===== src/Virtmemory/PageTable/Spares.antt =====
-- What a change of one tree leaves alone: all that is held and is no table of that tree.
use mathlib.Core.Bool.{false≢true}
use native.Mathlib.Decide.{ℕ_discrete}
use rust_baremetal.Prelude.{
  ℕ, ◌+◌, ◌*◌, ◌/◌, ◌%◌, ◌<◌, ◌≡◌, ◌≢◌, ◌∙◌, ◌⊎◌, inl, inr, refl, sym, arith, true, false,
  Bool-cases, ◌==◌, ==_iff, none, some,
}
use rust_baremetal.Prelude.Word.{word_mod}
use rust_baremetal.Machine.{Machine, alloc, page_layout}
use rust_baremetal.Machine.Outcome.{done, Ends, returned}
use rust_baremetal.Machine.Heap.{HeapAllocator, InPage, OutsidePage}
use rust_baremetal.Machine.Memory.{
  Mem, write_word, write_word_apart, write_zeros_apart, write_zeros, read_word-lt,
}
use rust_baremetal.Machine.Frames.{
  IsPage, Held, Keeps, Fresh, Fresh-outside, Fresh-apart, Exhausted, alloc_lem,
}
use rust_baremetal.Virtmemory.Pte.{table_entry}
use rust_baremetal.Virtmemory.Pte.Codec.{va_from_fields}
use rust_baremetal.Virtmemory.PageTable.Store.{stored-entry}
use rust_baremetal.Virtmemory.PageTable.{walk, alloc_tables, add_table}
use rust_baremetal.Virtmemory.PageTable.View.{entry, target, slot, IsTree, Keeps-word, Keeps-IsTree}
use rust_baremetal.Virtmemory.PageTable.Walk.{walk-valid, decoded_not_v, same_entries, not_table}
use rust_baremetal.Virtmemory.PageTable.Grow.{with_table, same_entry, new_target}
use rust_baremetal.Virtmemory.PageTable.Clear.{IsOwned}

module _ (H : HeapAllocator) (root : ℕ) where
  open H use {is_free}

  -- `a` is no byte of the root or of a table below it.
  pub record OffTree (m : Mem) (a : ℕ) : Type 0 where
    pub off_root : OutsidePage root a
    pub off_table :
        (i : ℕ) → i < 1024 → entry m root i % 2 ≡ 1 → OutsidePage (target (entry m root i)) a

  -- From `s` to `u` the tree at `root` at most got tables in pages that were free, and nothing that
  -- was held and is no part of the tree has changed.
  pub record Spares (s u : Machine H) : Type 0 where
    pub held : (a : ℕ) → Held H s.heap a → Held H u.heap a
    pub mem : (a : ℕ) → Held H s.heap a → OffTree s.mem a → u.mem a ≡ s.mem a
    pub tables :
        (i : ℕ)
        → i < 1024
        → entry u.mem root i % 2 ≡ 1
        → (entry u.mem root i ≡ entry s.mem root i)
          ⊎ ((a : ℕ) → InPage (target (entry u.mem root i)) a → is_free s.heap a ≡ true)

  pub Spares-refl : (s : Machine H) → Spares s s
  Spares-refl s = record { held = λ a h. h; mem = λ a h off. refl; tables = λ i h v. inl refl }

in_or_out : (p a : ℕ) → InPage p a ⊎ OutsidePage p a
in_or_out p a = grind arith

-- What is held lies outside a page that was free.
pub held_outside :
    (H : HeapAllocator) (s : Machine H) (p a : ℕ)
    → ((b : ℕ) → InPage p b → H.is_free s.heap b ≡ true)
    → Held H s.heap a
    → OutsidePage p a
held_outside H s p a free h = elim (in_or_out p a) [
  | inl inside ↦ absurd (false≢true (sym h ∙ free a inside))
  | inr outside ↦ outside
]

module _ (H : HeapAllocator) {root : ℕ} where
  pub Spares-OffTree :
      {s u : Machine H} (a : ℕ)
      → Spares H root s u
      → Held H s.heap a
      → OffTree H root s.mem a
      → OffTree H root u.mem a
  Spares-OffTree {s} {u} a spares h off = record {
    off_root = off.off_root;
    off_table = λ i i_lt v. elim (spares.tables i i_lt v) [
      | inl same ↦ rw same (off.off_table i i_lt (rw (sym same) v))
      | inr free ↦ held_outside H s (target (entry u.mem root i)) a free h
    ];
  }

  pub Spares-trans : {s t u : Machine H} → Spares H root s t → Spares H root t u → Spares H root s u
  Spares-trans {s} {t} {u} a b = record {
    held = λ c h. b.held c (a.held c h);
    mem = λ c h off. b.mem c (a.held c h) (Spares-OffTree c a h off) ∙ a.mem c h off;
    tables = λ i h v. elim (b.tables i h v) [
      | inl same ↦ elim (a.tables i h (rw (sym same) v)) [
        | inl old ↦ inl (same ∙ old)
        | inr free ↦ inr (rw same free)
      ]
      | inr free ↦ inr (λ c inside. elim (Bool-cases (H.is_free s.heap c)) [
        | inl yes_free ↦ yes_free
        | inr held ↦ absurd (false≢true (sym (a.held c held) ∙ free c inside))
      ])
    ];
  }

  pub Keeps-Spares : {s t : Machine H} → IsPage H s.heap root → Keeps H s t → Spares H root s t
  Keeps-Spares page keeps = record {
    held = keeps.held;
    mem = λ a h off. keeps.mem a h;
    tables = λ i h v. inl (Keeps-word H keeps (root + 4 * i) page (omega arith) (omega arith));
  }

  -- A page of the address space stays one, with all its bytes.
  pub Spares-IsOwned :
      {s u : Machine H} {w : ℕ} → Spares H root s u → IsOwned H s root w → IsOwned H u root w
  Spares-IsOwned {s} {u} {w} spares own = record {
    page = record {
      aligned = own.page.aligned;
      above = own.page.above;
      below = own.page.below;
      held = λ a h. spares.held a (own.page.held a h);
    };
    not_root = own.not_root;
    not_table = λ i h v e. elim (spares.tables i h v) [
      | inl same ↦ own.not_table i h (rw (sym same) v) (rw (sym same) e)
      | inr free ↦
          false≢true
            (sym (own.page.held (target w) (omega arith)) ∙ free (target w) (omega (arith, e)))
    ];
  }

  pub owned-OffTree :
      {s : Machine H} {w : ℕ} (a : ℕ)
      → IsTree H s root
      → IsOwned H s root w
      → InPage (target w) a
      → OffTree H root s.mem a
  owned-OffTree {s} {w} a tree own inside = record {
    off_root = grind (arith, own.not_root, tree.root_page.aligned);
    off_table = λ i h v. let ne = own.not_table i h v in grind arith;
  }

-- A store in a leaf entry.
module _ (H : HeapAllocator) {u : Machine H} {root : ℕ} (tree : IsTree H u root) (va : ℕ)
    (fits : va < word_mod) (valid : entry u.mem root (va / 4194304) % 2 ≡ 1) (w : ℕ)
    (w_lt : w < word_mod) where
  pub stored-Spares : Spares H root u (record u { mem = write_word u.mem (slot u.mem root va) w })
  stored-Spares = record {
    held = λ a h. h;
    mem = λ a h off.
        let out = off.off_table (va / 4194304) (omega arith) valid in
        write_word_apart u.mem (slot u.mem root va) a w (grind arith);
    tables = λ i h v. inl (stored-entry H tree va fits valid w w_lt i h);
  }

module _ (H : HeapAllocator) {s : Machine H} {root : ℕ} (tree : IsTree H s root) (va : ℕ)
    (fits : va < word_mod) where
  abbrev index : ℕ
  index = va / 4194304

  -- The fresh page becomes a table.
  grown-Spares :
      {t : Machine H} {p : ℕ}
      → Fresh H s t p
      → entry s.mem root index % 2 ≢ 1
      → Spares H root s (record t { mem = with_table t.mem root index p })
  grown-Spares {t} {p} fresh v =
      let tree' = Keeps-IsTree H fresh.keeps tree in
      let small : index < 1024 = omega arith in
      let same = same_entries H tree va fits fresh v in
      let empty : entry t.mem root index % 2 ≢ 1 = rw (same index small) v in
      let not_root : root ≢ p = Fresh-apart H fresh tree.root_page in
      let other = not_table H tree va fits fresh v in
      record {
        held = fresh.keeps.held;
        mem = λ a h off.
            let outside = Fresh-outside H fresh a h in
            let off_root = off.off_root in
            write_word_apart (write_zeros t.mem p 4096) (root + 4 * index) a (table_entry p)
              (grind arith)
            ∙ (write_zeros_apart t.mem p 4096 a (grind arith) ∙ fresh.keeps.mem a h);
        tables = λ i h valid. elim (ℕ_discrete i index) [
          | yes e ↦ inr (λ a inside.
              fresh.was_free a (
                rw (e, new_target H tree' index p small empty fresh.page not_root other) at inside))
          | no ne ↦
              inl
                (same_entry H tree' index p small empty fresh.page not_root other i h ne ∙ same i h)
        ];
      }

  found_one :
      (p : ℕ) {u : Machine H}
      → Spares H root s u
      → Ends
          (λ found u. Spares H root s u × (found ≡ none → Exhausted H s))
          (λ _. ⊥)
          (done (some p) u)
  found_one p spares = returned {a = some p} (spares, λ e. cc)

  walk_grow-Spares :
      (p : ℕ) (t : Machine H)
      → alloc H page_layout s ≡ done p t
      → Keeps H s t
      → ((p ≡ 0) × Exhausted H s ⊎ Fresh H s t p)
      → entry s.mem root index % 2 ≢ 1
      → Ends
          (λ found u. Spares H root s u × (found ≡ none → Exhausted H s))
          (λ _. ⊥)
          (walk H root va alloc_tables s)
  unfolding walk add_table
  walk_grow-Spares p t got keeps fresh v =
      let fields = va_from_fields va fits in
      rw (fields.0, decoded_not_v _ (read_word-lt s.mem _) v, got)
        (elim fresh [
          | inl null ↦ rw null.0 (returned (Keeps-Spares H tree.root_page keeps, λ _. null.1))
          | inr f ↦
              let not_null : (p == 0) ≡ false = ground (arith, H.lo_pos, f.page.above) in
              rw not_null (rw fields.1 (found_one _ (grown-Spares f v)))
        ])

  pub walk-Spares :
      Ends
        (λ found u. Spares H root s u × (found ≡ none → Exhausted H s))
        (λ _. ⊥)
        (walk H root va alloc_tables s)
  walk-Spares = elim (Bool-cases (entry s.mem root index % 2 == 1)) [
    | inl v ↦
        rw (walk-valid H tree va fits ((==_iff _ 1).0 v) alloc_tables)
          (found_one _ (Spares-refl H root s))
    | inr n ↦
        let (p, t, got, keeps, fresh) = alloc_lem H s in
        walk_grow-Spares p t got keeps fresh (ground arith)
  ]
