-- ===== src/Virtmemory/Uvm/Grow.antt =====
-- `alloc`: the address space grows to the size asked for, rounded up to whole pages.
use rust_baremetal.Prelude.{
  ℕ, zero, suc, ◌+◌, ◌*◌, ◌/◌, ◌≤◌, ◌<◌, ◌≡◌, ◌≢◌, ◌%◌, ◌∙◌, inl, inr, refl, ap, arith, true, false,
  Bool-cases, ltb, ◌==◌, if◌then◌else◌,
}
use rust_baremetal.Prelude.Word.{word_mod}
use rust_baremetal.Machine.Outcome.{Run, Ends, returned, failed, and_then}
use rust_baremetal.Machine.Outcome
use rust_baremetal.Machine.Heap.{HeapAllocator}
use rust_baremetal.Virtmemory.PageTable.Map.{put}
use rust_baremetal.Virtmemory.PageTable.Clear.{is_user_leaf}
use rust_baremetal.Virtmemory.PageTable.Spares.{Spares-refl}
use rust_baremetal.Virtmemory.Uvm.{Space, add_page, alloc_page, alloc_loop, alloc_uvm}
use rust_baremetal.Virtmemory.Uvm.Valid.{user_end, words, IsSpace, Owned-snoc}
use rust_baremetal.Virtmemory.Uvm.Attach.{
  user_entry, Attached, Unchanged, NoMemory, alloc_page-Attached,
}
use rust_baremetal.Virtmemory.Uvm.Grown.{IsUserPerm, Grown, Grown-refl, Grown-trans, Short}

-- `size`, rounded up to whole pages.
abbrev pub whole_pages : ℕ → ℕ
whole_pages size = (size + 4095) / 4096 * 4096

not_user : (w : ℕ) → w % 2 ≡ 0 → is_user_leaf w ≢ true
not_user w h g = ground arith

module _ (H : HeapAllocator) where
  -- A round adds one page.
  module _ (perm : ℕ) (f : ℕ → ℕ) (s : Space H) (space : IsSpace H f s.machine s.uvm)
      (room : H.hi < word_mod) (bound : 65536 + s.uvm.size + 4096 ≤ user_end) where
    -- A page without an entry.
    pub guard-IsSpace : IsSpace H f s.machine (record s.uvm { size = s.uvm.size + 4096 })
    guard-IsSpace = record {
      shows = space.shows;
      begin = space.begin;
      whole = omega (arith, space.whole);
      bound = omega (arith, bound);
      owned =
          let count : (s.uvm.size + 4096) / 4096 ≡ s.uvm.size / 4096 + 1 = omega arith in
          let last : words f (s.uvm.size / 4096) % 2 ≡ 0 =
            space.above (65536 + s.uvm.size / 4096 * 4096) (omega (arith, space.whole))
              (omega (arith, bound)) in
          rw count (
            Owned-snoc H (s.uvm.size / 4096) space.owned (λ g. absurd (not_user _ last g))
              (λ k h g g' e. not_user _ last g'));
      above = λ va lo hi. space.above va (omega arith) hi;
    }

    guard-Grown :
        perm ≡ 0 → Grown H perm f s (record s { uvm = record s.uvm { size = s.uvm.size + 4096 } })
    guard-Grown e = record {
      view = f;
      root = refl;
      larger = omega arith;
      space = guard-IsSpace;
      old = λ va h. refl;
      added = λ va lo hi. inl (e, space.above va lo (omega (arith, bound)));
      spares = Spares-refl H s.uvm.root s.machine;
    }

    attached-Grown : {t : Space H} → perm ≢ 0 → Attached H f perm s t → Grown H perm f s t
    attached-Grown {t} access a =
        let grew : t.uvm.size ≡ s.uvm.size + 4096 = ap (λ v. v.size) a.uvm in
        record {
          view = put f (65536 + s.uvm.size) (user_entry a.page perm);
          root = ap (λ v. v.root) a.uvm;
          larger = omega arith;
          space = a.space;
          old = λ va h.
              let other : (va / 4096 == (65536 + s.uvm.size) / 4096) ≡ false =
                ground (arith, space.whole) in
              rw other refl;
          added = λ va lo hi.
              let same : (va / 4096 == (65536 + s.uvm.size) / 4096) ≡ true =
                ground (arith, space.whole) in
              rw same (inr (a.page, refl, a.frame, access, a.was_free));
          spares = a.spares;
        }

    unchanged-Grown : {t : Space H} → Unchanged H f perm s t → Grown H perm f s t
    unchanged-Grown {t} n =
        let size_same : t.uvm.size ≡ s.uvm.size = ap (λ v. v.size) n.uvm in
        record {
          view = f;
          root = ap (λ v. v.root) n.uvm;
          larger = omega arith;
          space = n.space;
          old = λ va h. refl;
          added = λ va lo hi. absurd (omega arith);
          spares = n.spares;
        }

    round-Grown :
        IsUserPerm perm
        → Ends
            (λ _ t. Grown H perm f s t × (t.uvm.size ≡ s.uvm.size + 4096))
            (λ t. Grown H perm f s t × (t.uvm ≡ s.uvm) × NoMemory H s.machine)
            ((if perm == 0 then add_page H else alloc_page H perm) s)
    round-Grown (inl e) =
        let guard : (perm == 0) ≡ true = ground arith in
        let fits : ltb (s.uvm.size + 4096) word_mod ≡ true = ground (arith, bound) in
        rw (guard, fits) (returned (guard-Grown e, refl))
    round-Grown (inr access) =
        let mapped : (perm == 0) ≡ false = ground (arith, access.2) in
        rw mapped (
          Outcome.weaken (alloc_page-Attached H f perm access s space room bound)
            (λ _ t a. (attached-Grown access.2 a, ap (λ v. v.size) a.uvm))
            (λ t n. (unchanged-Grown n, n.uvm, n.no_memory)))

  -- The size that `alloc` leaves.
  abbrev pub grown_size : (old size : ℕ) → ℕ
  grown_size old size = if ltb old size then whole_pages size else old

  Short-later :
      (perm size : ℕ) (f : ℕ → ℕ) {s t u : Space H} (a : Grown H perm f s t)
      → Short H perm a.view size t u
      → Short H perm f size s u
  Short-later perm size f a b = record {
    last = b.last;
    until = Grown-trans H perm f a b.until;
    no_memory = b.no_memory;
    uvm = b.uvm;
    short = b.short;
    grown = Grown-trans H perm f a b.grown;
  }

  last_size :
      (old next size : ℕ)
      → old % 4096 ≡ 0
      → old < size
      → next ≡ old + 4096
      → grown_size next size ≡ whole_pages size
  last_size old next size whole more e = ground arith

  alloc_loop-Grown :
      (fuel size perm : ℕ) (f : ℕ → ℕ) (s : Space H)
      → IsSpace H f s.machine s.uvm
      → H.hi < word_mod
      → 65536 + size ≤ user_end
      → IsUserPerm perm
      → size + 4096 ≤ fuel * 4096 + s.uvm.size
      → 1 ≤ fuel
      → Ends
          (λ _ t. Grown H perm f s t × (t.uvm.size ≡ grown_size s.uvm.size size))
          (Short H perm f size s)
          (alloc_loop H fuel size perm s)
  unfolding alloc_loop
  alloc_loop-Grown zero size perm f s space room bound is_perm enough one = absurd (omega arith)
  alloc_loop-Grown (suc fuel) size perm f s space room bound is_perm enough one =
      elim (Bool-cases (ltb s.uvm.size size)) [
        | inr stop ↦ rw stop (returned (Grown-refl H perm f s space, refl))
        | inl go ↦
            let more : s.uvm.size < size = ground (arith, go) in
            rw go (
              Outcome.bind
                (Outcome.weaken
                  (round-Grown perm f s space room (omega (arith, bound, space.whole)) is_perm)
                  (λ _ t p. p)
                  (λ t (grown, same, none_left). record {
                    last = s;
                    until = Grown-refl H perm f s space;
                    no_memory = none_left;
                    uvm = same;
                    short = omega (arith, ap (λ v. v.size) same);
                    grown = grown;
                  }))
                (λ _ t (grown, size_t).
                  Outcome.weaken
                    (alloc_loop-Grown fuel size perm grown.view t grown.space room bound is_perm
                      (omega arith) (omega arith))
                    (λ _ u (next, size_u). (
                      Grown-trans H perm f grown next,
                      size_u ∙ last_size s.uvm.size t.uvm.size size space.whole more size_t,
                    ))
                    (λ u short. Short-later perm size f grown short)))
      ]

  -- `alloc` of an address space that is well formed, to a size below the page of the trapframe:
  -- it returns with the size rounded up to whole pages, or the old one where that is larger; or it
  -- fails where no memory was left for a page or its table, with a size below the one asked for.
  -- Either way the address space is well formed, every page that it had and every page above it
  -- translates as before, each page added is unmapped where the permissions are none, else goes
  -- with these and the user's bit to a page of its own that was free; and of all other memory
  -- nothing that was held has changed.
  pub alloc_uvm-Grown :
      (size perm : ℕ) (f : ℕ → ℕ) (s : Space H)
      → IsSpace H f s.machine s.uvm
      → H.hi < word_mod
      → 65536 + size ≤ user_end
      → IsUserPerm perm
      → Ends
          (λ _ t. Grown H perm f s t × (t.uvm.size ≡ grown_size s.uvm.size size))
          (Short H perm f size s)
          (alloc_uvm H size perm s)
  unfolding alloc_uvm
  alloc_uvm-Grown size perm f s space room bound is_perm =
      alloc_loop-Grown (size / 4096 + 2) size perm f s space room bound is_perm (omega arith)
        (omega arith)
