-- ===== src/Virtmemory/Uvm/Shrink.antt =====
-- `dealloc` and `free`: the pages behind the new end, or all of them, go back to the heap.
use native.Mathlib.Decide.{ℕ_discrete}
use rust_baremetal.Prelude.{
  ℕ, ◌+◌, ◌-◌, ◌*◌, ◌/◌, ◌%◌, ◌≤◌, ◌<◌, ◌≡◌, ◌≢◌, ◌∙◌, ◌⊎◌, inl, inr, refl, sym, ap, arith, true,
  false, ltb, Bool-cases, ◌==◌,
}
use rust_baremetal.Prelude.Word.{word_mod}
use rust_baremetal.Machine.{Machine}
use rust_baremetal.Machine.Outcome.{done, err, panic}
use rust_baremetal.Machine.Heap.{HeapAllocator}
use rust_baremetal.Virtmemory.PageTable.{unmap}
use rust_baremetal.Virtmemory.PageTable.View.{target}
use rust_baremetal.Virtmemory.PageTable.Clear.{is_user_leaf}
use rust_baremetal.Virtmemory.PageTable.Unmap.{
  unmapped, Owned, Released, Unmapped, unmap-Unmapped, pages_apart,
}
use rust_baremetal.Virtmemory.Uvm.{Space, dealloc_uvm}
use rust_baremetal.Virtmemory.Uvm.Valid.{words, IsSpace, Owned-cong}
use rust_baremetal.Virtmemory.Uvm.Grown.{below_or_from}

module _ (H : HeapAllocator) {s : Machine H} {root : ℕ} {ws : ℕ → ℕ} where
  -- The entries from the `m`-th on.
  Owned-drop :
      (m n : ℕ) (vs : ℕ → ℕ)
      → ((k : ℕ) → vs k ≡ ws (m + k))
      → Owned H true s root ws (m + n)
      → Owned H true s root vs n
  Owned-drop m n vs same own = record {
    owned = λ k h. rw (same k) (own.owned (m + k) (omega arith));
    distinct = λ k j hk hj.
        rw (same k, same j)
          λ g g' e. omega (arith, own.distinct (m + k) (m + j) (omega arith) (omega arith) g g' e);
  }

  -- The first `m` entries are owned after the `n` pages behind them have been given back.
  Owned-take :
      {u : Machine H} (m n : ℕ) (f : ℕ → ℕ) (va end : ℕ)
      → ((k : ℕ) → f (va + k * 4096) ≡ ws (m + k))
      → Owned H true s root ws (m + n)
      → Unmapped H root true n f s va end u
      → Owned H true u root ws m
  Owned-take {u} m n f va end same own gone = record {
    owned = λ k h g.
        let one = own.owned k (omega arith) g in
        let apart : (j : ℕ)
            → j < n
            → is_user_leaf (f (va + j * 4096)) ≡ true
            → target (ws k) ≢ target (f (va + j * 4096)) =
          λ j hj gj e. omega (
            arith,
            own.distinct k (m + j) (omega arith) (omega arith) g (rw (sym (same j)) gj)
                (e ∙ ap target (same j)),
          ) in
        record {
          page = record {
            aligned = one.page.aligned;
            above = one.page.above;
            below = one.page.below;
            held = λ a inside.
                gone.released.rest a
                  (λ j hj gj. pages_apart (ws k) (f (va + j * 4096)) a (apart j hj gj) inside)
                ∙ one.page.held a inside;
          };
          not_root = one.not_root;
          not_table = λ i h'. rw (gone.entries i h') (one.not_table i h');
        };
    distinct = λ k j hk hj. own.distinct k j (omega arith) (omega arith);
  }

-- The address space has the new size, and exactly the user's pages behind it are free.
pub record Shrunk (H : HeapAllocator) (f : ℕ → ℕ) (size : ℕ) (s t : Space H) : Type 0 where
  pub uvm : t.uvm ≡ record s.uvm { size = size }
  pub space : IsSpace H (unmapped f (65536 + size) (65536 + s.uvm.size)) t.machine t.uvm
  pub released :
      Released H true
        (λ k. f (65536 + size + k * 4096))
        ((s.uvm.size - size) / 4096)
        s.machine
        t.machine

module _ (H : HeapAllocator) (f : ℕ → ℕ) (s : Space H) (space : IsSpace H f s.machine s.uvm)
    (size : ℕ) where
  abbrev newend : ℕ
  newend = 65536 + size

  abbrev end : ℕ
  end = 65536 + s.uvm.size

  module _ (whole : size % 4096 ≡ 0) (fits : size ≤ s.uvm.size) where
    abbrev count : ℕ
    count = (s.uvm.size - size) / 4096

    same_words : (k : ℕ) → f (newend + k * 4096) ≡ words f (size / 4096 + k)
    same_words k = ap f (omega arith)

    all_words : Owned H true s.machine s.uvm.root (words f) (size / 4096 + count)
    all_words =
        let total : size / 4096 + count ≡ s.uvm.size / 4096 = omega (arith, space.whole) in
        rw total space.owned

    shrunk-IsSpace :
        {u : Machine H}
        → Unmapped H s.uvm.root true count f s.machine newend end u
        → IsSpace H (unmapped f newend end) u (record s.uvm { size = size })
    shrunk-IsSpace gone = record {
      shows = gone.shows;
      begin = space.begin;
      whole = whole;
      bound = omega (arith, space.bound);
      owned =
          let low : (k : ℕ) → k < size / 4096 → words (unmapped f newend end) k ≡ words f k =
            λ k h. ground arith in
          Owned-cong H (words (unmapped f newend end)) low
            (Owned-take H (size / 4096) count f newend end same_words all_words gone);
      above = λ va lo hi. ground (arith, space.above va);
    }

    unmap_range :
        (u : Machine H) × (unmap H s.uvm.root newend (s.uvm.size - size) true s.machine ≡ done tt u)
        × Unmapped H s.uvm.root true count f s.machine newend end u
    unmap_range =
        let last : newend + (s.uvm.size - size) ≡ end = omega arith in
        let own =
          Owned-drop H (size / 4096) count (λ k. f (newend + k * 4096)) same_words all_words in
        elim (unmap-Unmapped H s.uvm.root true f s.machine newend (s.uvm.size - size) space.shows
          (omega arith) (omega (arith, space.bound)) own) [
            | inl (_, (u, ran, gone)) ↦ (u, ran, rw last at gone)
            | inr (part, _) ↦ absurd (part (omega (arith, space.whole)))
          ]

    shrunk : (t : Space H) × (dealloc_uvm H size s ≡ done tt t) × Shrunk H f size s t
    unfolding dealloc_uvm
    shrunk =
        let (u, ran, gone) = unmap_range in
        let test : (size % 4096 == 0) ≡ true = ground arith in
        let add : ltb (65536 + size) word_mod ≡ true = ground (arith, space.bound) in
        let sub : ltb s.uvm.size size ≡ false = ground arith in
        (
          record { machine = u; uvm = record s.uvm { size = size } },
          rw (test, add, sub, ran) refl,
          record { uvm = refl; space = shrunk-IsSpace gone; released = gone.released },
        )

  -- `dealloc` of a well-formed address space to a size of whole pages that is at most its own: it
  -- returns, with that size and well formed, no page from the new end to the old one mapped, all
  -- other translations kept, and exactly the user's pages of that range free that were not before.
  -- To a larger size it panics, and to one that is not of whole pages it fails and changes nothing.
  pub dealloc_uvm-Shrunk :
      (size % 4096 ≡ 0)
        × (size ≤ s.uvm.size)
        × ((t : Space H) × (dealloc_uvm H size s ≡ done tt t) × Shrunk H f size s t)
      ⊎ (size % 4096 ≡ 0) × (s.uvm.size < size) × (dealloc_uvm H size s ≡ panic)
      ⊎ (size % 4096 ≢ 0) × (dealloc_uvm H size s ≡ err s)
  unfolding dealloc_uvm
  dealloc_uvm-Shrunk = elim (ℕ_discrete (size % 4096) 0) [
    | no part ↦
        let test : (size % 4096 == 0) ≡ false = ground arith in inr (inr (part, rw test refl))
    | yes whole ↦ elim (below_or_from s.uvm.size size) [
      | inr fits ↦ inl (whole, fits, shrunk whole fits)
      | inl large ↦
          let test : (size % 4096 == 0) ≡ true = ground arith in
          let sub : ltb s.uvm.size size ≡ true = ground arith in
          inr (
            inl (
              whole,
              large,
              rw (test, sub)
                  (elim (Bool-cases (ltb (65536 + size) word_mod)) [
                    | inl fits ↦ rw fits refl
                    | inr over ↦ rw over refl
                  ]),
            ))
    ]
  ]
