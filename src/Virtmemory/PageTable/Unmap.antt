-- ===== src/Virtmemory/PageTable/Unmap.antt =====
-- `unmap`: the range is unmapped, and the user's pages in it go back to the heap.
use native.Mathlib.Decide.{ℕ_discrete}
use std.Path.{fun_ext}
use rust_baremetal.Prelude.{
  ℕ, zero, suc, ◌+◌, ◌*◌, ◌/◌, ◌%◌, ◌≤◌, ◌<◌, ◌≡◌, ◌≢◌, ◌∙◌, ◌⊎◌, inl, inr, refl, sym, ap, arith,
  Bool, true, false, ◌==◌, ltb, leb, ◌&&◌, if◌then◌else◌,
}
use rust_baremetal.Prelude.Word.{word_mod}
use rust_baremetal.Machine.{Machine, add_usize}
use rust_baremetal.Machine.Outcome.{done, err, M, and_then, ◌>>=◌, and_then_assoc}
use rust_baremetal.Machine.Heap.{HeapAllocator, InPage, OutsidePage}
use rust_baremetal.Virtmemory.PageTable.{unmap, unmap_loop, clear_entry, walk, only_walk}
use rust_baremetal.Virtmemory.Pte.{page_size}
use rust_baremetal.Virtmemory.PageTable.View.{entry, target, lookup}
use rust_baremetal.Virtmemory.PageTable.Map.{Shows}
use rust_baremetal.Virtmemory.PageTable.Clear.{
  gives_back, dropped, IsOwned, Cleared, round, round-Cleared,
}

-- The view that `unmap` leaves: no page from `virt` up to `end` is mapped.
abbrev pub unmapped : (ℕ → ℕ) → ℕ → ℕ → ℕ → ℕ
unmapped f virt end va = if leb virt va && ltb va end && (f va % 2 == 1) then 0 else f va

unmapped_step :
    (f : ℕ → ℕ) (virt end va : ℕ)
    → virt % 4096 ≡ 0
    → virt + 4096 ≤ end
    → unmapped (dropped f virt) (virt + 4096) end va ≡ unmapped f virt end va
unmapped_step f virt end va al h = ground arith

dropped_later : (f : ℕ → ℕ) (va k : ℕ) → dropped f va (va + 4096 + k * 4096) ≡ f (va + suc k * 4096)
dropped_later f va k =
    let same : va + 4096 + k * 4096 ≡ va + suc k * 4096 = omega arith in
    let other : ((va + suc k * 4096) / 4096 == va / 4096) ≡ false = ground arith in
    rw (same, other) refl

later :
    (f : ℕ → ℕ) (va : ℕ)
    → ◌≡◌ {A = ℕ → ℕ} (λ k. dropped f va (va + 4096 + k * 4096)) (λ k. f (va + suc k * 4096))
later f va = fun_ext (dropped_later f va)

module _ (H : HeapAllocator) where
  open H use {is_free}

  -- The first `n` entries of `words`: the pages that are to be given back belong to the address
  -- space alone, and no two entries share one.
  pub record Owned (free : Bool) (s : Machine H) (root : ℕ) (words : ℕ → ℕ) (n : ℕ) : Type 0 where
    pub owned : (k : ℕ) → k < n → gives_back free (words k) ≡ true → IsOwned H s root (words k)
    pub distinct :
        (k j : ℕ)
        → k < n
        → j < n
        → gives_back free (words k) ≡ true
        → gives_back free (words j) ≡ true
        → target (words k) ≡ target (words j)
        → k ≡ j

  -- The pages of `words` that are to be given back are free, and of the other bytes the same ones
  -- as before.
  pub record Released (free : Bool) (words : ℕ → ℕ) (n : ℕ) (s u : Machine H) : Type 0 where
    pub gone :
        (k : ℕ)
        → k < n
        → gives_back free (words k) ≡ true
        → (a : ℕ) → InPage (target (words k)) a
        → is_free u.heap a ≡ true
    pub rest :
        (a : ℕ)
        → ((k : ℕ) → k < n → gives_back free (words k) ≡ true → OutsidePage (target (words k)) a)
        → is_free u.heap a ≡ is_free s.heap a

-- Two aligned pages are the same or apart.
pub pages_apart :
    (w w' a : ℕ) → target w ≢ target w' → InPage (target w) a → OutsidePage (target w') a
pages_apart w w' a ne h = grind arith

module _ (H : HeapAllocator) {s u : Machine H} {root va : ℕ} {free : Bool} {words : ℕ → ℕ} where
  -- After the first entry has been cleared, the others are owned as before.
  Owned-tail :
      (n : ℕ)
      → Owned H free s root words (suc n)
      → Cleared H free root va (words 0) s u
      → Owned H free u root (λ k. words (suc k)) n
  Owned-tail n own cleared = record {
    owned = λ k h g.
        let one = own.owned (suc k) (omega arith) g in
        record {
          page = record {
            aligned = one.page.aligned;
            above = one.page.above;
            below = one.page.below;
            held = λ a inside.
                cleared.rest a (λ g0.
                  pages_apart (words (suc k)) (words 0) a
                    (λ e. omega (arith, own.distinct (suc k) 0 (omega arith) (omega arith) g g0 e))
                    inside)
                ∙ one.page.held a inside;
          };
          not_root = one.not_root;
          not_table = λ i h'. rw (cleared.entries i h') (one.not_table i h');
        };
    distinct = λ k j h h' g g' e.
        omega (arith, own.distinct (suc k) (suc j) (omega arith) (omega arith) g g' e);
  }

  Released-cons :
      {t : Machine H} (n : ℕ)
      → Owned H free s root words (suc n)
      → Cleared H free root va (words 0) s u
      → Released H free (λ k. words (suc k)) n u t
      → Released H free words (suc n) s t
  Released-cons {t} n own cleared tail = record { gone = gone; rest = rest }
    where
      gone :
          (k : ℕ)
          → k < suc n
          → gives_back free (words k) ≡ true
          → (a : ℕ) → InPage (target (words k)) a
          → H.is_free t.heap a ≡ true
      gone zero h g a inside =
          tail.rest a (λ k h' g'.
            pages_apart (words 0) (words (suc k)) a
              (λ e. omega (arith, own.distinct 0 (suc k) (omega arith) (omega arith) g g' e))
              inside)
          ∙ cleared.gone g a inside
      gone (suc k) h g a inside = tail.gone k (omega arith) g a inside

      rest :
          (a : ℕ)
          → ((k : ℕ)
              → k < suc n
              → gives_back free (words k) ≡ true
              → OutsidePage (target (words k)) a)
          → H.is_free t.heap a ≡ H.is_free s.heap a
      rest a out =
          tail.rest a (λ k h g. out (suc k) (omega arith) g)
          ∙ cleared.rest a (λ g. out 0 (omega arith) g)

module _ (H : HeapAllocator) (root : ℕ) (free : Bool) where
  unmap_next :
      (n va : ℕ) (s : Machine H) {u : Machine H}
      → round H s root free va ≡ done tt u
      → va + 4096 < word_mod
      → unmap_loop H (suc n) root va free s ≡ unmap_loop H n root (va + 4096) free u
  unfolding unmap_loop
  unmap_next n va s ran fits =
      let add : ltb (va + 4096) word_mod ≡ true = ground arith in
      let rounds : M (Machine H) (Unit {0}) =
        add_usize va page_size >>= λ va'. unmap_loop H n root va' free in
      and_then_assoc (walk H root va only_walk s) (clear_entry H free) (λ _. rounds)
      ∙ (ap (λ r. and_then r (λ _. rounds)) ran ∙ rw add refl)

  -- `n` pages from `va` on have been unmapped.
  pub record Unmapped (n : ℕ) (f : ℕ → ℕ) (s : Machine H) (va end : ℕ) (u : Machine H)
      : Type 0 where
    pub shows : Shows H root (unmapped f va end) u
    pub released : Released H free (λ k. f (va + k * 4096)) n s u
    pub entries : (i : ℕ) → i < 1024 → entry u.mem root i ≡ entry s.mem root i

  Unmapped-cons :
      (n : ℕ) (f : ℕ → ℕ) {s u t : Machine H} (va end : ℕ)
      → Shows H root f s
      → va % 4096 ≡ 0
      → va + 4096 ≤ end
      → Owned H free s root (λ k. f (va + k * 4096)) (suc n)
      → Cleared H free root va (f (va + 0 * 4096)) s u
      → Unmapped n (dropped f va) u (va + 4096) end t
      → Unmapped (suc n) f s va end t
  Unmapped-cons n f va end shows al h own cleared tail = record {
    shows = record {
      tree = tail.shows.tree;
      view = λ va' h'. tail.shows.view va' h' ∙ unmapped_step f va end va' al h;
    };
    released = Released-cons H n own cleared (rw (sym (later f va)) tail.released);
    entries = λ i h. tail.entries i h ∙ cleared.entries i h;
  }

  Cleared-Shows :
      (f : ℕ → ℕ) {s u : Machine H} (va w : ℕ)
      → Shows H root f s
      → Cleared H free root va w s u
      → Shows H root (dropped f va) u
  Cleared-Shows f va w shows cleared = record {
    tree = cleared.tree;
    view = λ va' h. cleared.view va' h ∙ rw (shows.view va' h) refl;
  }

  unmap_loop-Unmapped :
      (n : ℕ) (f : ℕ → ℕ) {s : Machine H} (va end : ℕ)
      → Shows H root f s
      → va % 4096 ≡ 0
      → end ≡ va + n * 4096
      → end < word_mod
      → Owned H free s root (λ k. f (va + k * 4096)) n
      → (u : Machine H) × (unmap_loop H n root va free s ≡ done tt u) × Unmapped n f s va end u
  unmap_loop-Unmapped zero f {s} va end shows al e fits own = (
    s,
    unfold unmap_loop in refl,
    record {
      shows = record { tree = shows.tree; view = λ va' h. shows.view va' h ∙ ground arith };
      released = record { gone = λ k h. absurd (omega (arith, h)); rest = λ a h. refl };
      entries = λ i h. refl;
    },
  )
  unmap_loop-Unmapped (suc n) f {s} va end shows al e fits own =
      let first : lookup s.mem root va ≡ f (va + 0 * 4096) =
        shows.view va (omega arith) ∙ ap f (omega arith) in
      let (u, ran, clear) =
        round-Cleared H s root free va shows.tree (omega arith)
          (rw first (own.owned 0 (omega arith))) in
      let cleared : Cleared H free root va (f (va + 0 * 4096)) s u = rw (sym first) clear in
      let (t, rest, tail) =
        unmap_loop-Unmapped n (dropped f va) {s = u} (va + 4096) end
          (Cleared-Shows f va _ shows cleared) (omega arith) (omega arith) fits
          (rw (later f va) (Owned-tail H n own cleared)) in
      (
        t,
        unmap_next n va s ran (omega arith) ∙ rest,
        Unmapped-cons n f va end shows al (omega arith) own cleared tail,
      )

  -- `unmap` of a range below the top of the address space, where the user's pages that are to be
  -- given back belong to the address space alone: for whole pages it returns, with no page of the
  -- range mapped, every other translation kept, the tree well formed, and exactly the user's pages
  -- of the range released to the heap if `free` is given, none otherwise; for any other size it
  -- fails and changes nothing.
  pub unmap-Unmapped :
      (f : ℕ → ℕ) (s : Machine H) (virt size : ℕ)
      → Shows H root f s
      → virt % 4096 ≡ 0
      → virt + size < word_mod
      → Owned H free s root (λ k. f (virt + k * 4096)) (size / 4096)
      → (size % 4096 ≡ 0)
          × ((u : Machine H) × (unmap H root virt size free s ≡ done tt u)
              × Unmapped (size / 4096) f s virt (virt + size) u)
        ⊎ (size % 4096 ≢ 0) × (unmap H root virt size free s ≡ err s)
  unfolding unmap
  unmap-Unmapped f s virt size shows al fits own = elim (ℕ_discrete (size % 4096) 0) [
    | yes whole ↦
        let test : (size % 4096 == 0) ≡ true = ground arith in
        inl (
          whole,
          rw test (
              unmap_loop-Unmapped (size / 4096) f virt (virt + size) shows al (omega arith) fits
                own),
        )
    | no part ↦ let test : (size % 4096 == 0) ≡ false = ground arith in inr (part, rw test refl)
  ]
