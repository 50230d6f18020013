-- ===== src/Virtmemory/Uvm/Attach.antt =====
-- A round of `alloc`: the address space grows by one page, or stays as it is.
use rust_baremetal.Prelude.{
  ℕ, ◌+◌, ◌*◌, ◌/◌, ◌%◌, ◌≤◌, ◌<◌, ◌≡◌, ◌≢◌, ◌∙◌, ◌⊎◌, inl, inr, refl, sym, ap, arith, true, false,
  ltb, ◌==◌, if◌then◌else◌, bit_or,
}
use rust_baremetal.Prelude.Word.{word_mod}
use rust_baremetal.Prelude.Bits.{bit_or-half, bit_or-zero}
use rust_baremetal.Machine.{Machine, alloc, dealloc, page_layout}
use rust_baremetal.Machine.Outcome.{
  Run, done, err, Ends, returned, failed, and_then, within, is_ok, ◌>>=◌,
}
use rust_baremetal.Machine.Heap.{HeapAllocator, InPage}
use rust_baremetal.Machine.Frames.{
  Fresh, Fresh-apart, Keeps, Exhausted, Freed, alloc_lem, dealloc_lem,
}
use rust_baremetal.Virtmemory.Pte.{leaf_entry}
use rust_baremetal.Virtmemory.Pte.Codec.{leaf_entry_sum}
use rust_baremetal.Virtmemory.PageTable.View.{target}
use rust_baremetal.Virtmemory.PageTable.Map.{Shows, put}
use rust_baremetal.Virtmemory.PageTable.One.{map_one}
use rust_baremetal.Virtmemory.PageTable.Clear.{IsOwned}
use rust_baremetal.Virtmemory.PageTable.Spares.{Spares, Spares-trans, Spares-IsOwned, Keeps-Spares}
use rust_baremetal.Virtmemory.Uvm.{Space, on_machine, add_page, attach_page, alloc_page}
use rust_baremetal.Virtmemory.Uvm.Valid.{
  user_end, words, IsSpace, Spares-Owned, Owned-snoc, Owned-cong, Fresh-IsOwned, Keeps-Shows,
  Keeps-IsSpace, Freed-Shows, Freed-Spares,
}

-- Permissions without the user's bit, and not none.
abbrev pub IsAccess : ℕ → Type 0
IsAccess perm = (perm < 16) × (perm % 2 ≡ 0) × (perm ≢ 0)

user_perm : (perm : ℕ) → perm < 16 → bit_or perm 16 ≡ perm + 16
user_perm perm h = omega (
  arith,
  bit_or-half perm 16,
  bit_or-half (perm / 2) 8,
  bit_or-half (perm / 2 / 2) 4,
  bit_or-half (perm / 2 / 2 / 2) 2,
  bit_or-half (perm / 2 / 2 / 2 / 2) 1,
  bit_or-zero (perm / 2 / 2 / 2 / 2 / 2),
)

-- The entry of a page of the program.
abbrev pub user_entry : ℕ → ℕ → ℕ
user_entry page perm = leaf_entry page (perm + 16)

pub user_entry-target :
    (page perm : ℕ)
    → page < word_mod
    → page % 4096 ≡ 0
    → IsAccess perm
    → target (user_entry page perm) ≡ page
user_entry-target page perm h al a = omega (arith, leaf_entry_sum page (perm + 16) h (omega arith))

-- The address of a page below the top of memory.
abbrev pub IsFrame : ℕ → Type 0
IsFrame page = (page % 4096 ≡ 0) × (page + 4096 < word_mod)

-- There is no page, or none for a table once the page is taken.
abbrev pub NoMemory : (H : HeapAllocator) → Machine H → Type 0
NoMemory H s = Exhausted H s ⊎ (p : ℕ) × (m : Machine H) × Fresh H s m p × Exhausted H m

-- The address space and the machine after a page has been added, and after none has.
module _ (H : HeapAllocator) (f : ℕ → ℕ) (perm : ℕ) (s : Space H) where
  pub record Attached (t : Space H) : Type 0 where
    pub page : ℕ
    pub frame : IsFrame page
    pub uvm : t.uvm ≡ record s.uvm { size = s.uvm.size + 4096 }
    pub space : IsSpace H (put f (65536 + s.uvm.size) (user_entry page perm)) t.machine t.uvm
    pub was_free : (a : ℕ) → InPage page a → H.is_free s.machine.heap a ≡ true
    pub spares : Spares H s.uvm.root s.machine t.machine

  pub record Unchanged (t : Space H) : Type 0 where
    pub uvm : t.uvm ≡ s.uvm
    pub no_memory : NoMemory H s.machine
    pub space : IsSpace H f t.machine t.uvm
    pub spares : Spares H s.uvm.root s.machine t.machine

module _ (H : HeapAllocator) (f : ℕ → ℕ) (perm : ℕ) (access : IsAccess perm) (s : Space H)
    (space : IsSpace H f s.machine s.uvm) (room : H.hi < word_mod)
    (bound : 65536 + s.uvm.size + 4096 ≤ user_end) where
  abbrev pub size : ℕ
  size = s.uvm.size

  abbrev pub end : ℕ
  end = 65536 + size

  abbrev pub root : ℕ
  root = s.uvm.root

  -- The other pages' entries are as before.
  pub put_word : (w k : ℕ) → k < size / 4096 → words (put f end w) k ≡ words f k
  put_word w k h =
      let other : ((65536 + k * 4096) / 4096 == end / 4096) ≡ false = ground arith in rw other refl

  pub put_last : (w : ℕ) → words (put f end w) (size / 4096) ≡ w
  put_last w =
      let same : ((65536 + size / 4096 * 4096) / 4096 == end / 4096) ≡ true =
        ground (arith, space.whole) in
      rw same refl

  module _ {p : ℕ} {m : Machine H} (fresh : Fresh H s.machine m p) where
    abbrev pub word : ℕ
    word = user_entry p perm

    pub p-lt : p + 4096 < word_mod
    p-lt = omega (arith, fresh.page.below)

    pub word-target : target word ≡ p
    word-target = user_entry-target p perm (omega (arith, p-lt)) fresh.page.aligned access

    pub before : Spares H root s.machine m
    before = Keeps-Spares H space.shows.tree.root_page fresh.keeps

    pub own : IsOwned H m root word
    own = Fresh-IsOwned H word space.shows.tree fresh word-target

    -- The page has its entry.
    pub attached-IsSpace :
        {u : Machine H}
        → Shows H root (put f end word) u
        → Spares H root m u
        → IsSpace H (put f end word) u (record s.uvm { size = size + 4096 })
    attached-IsSpace {u} shows spares =
        let count : (size + 4096) / 4096 ≡ size / 4096 + 1 = omega arith in
        let old = space.owned in
        record {
          shows = shows;
          begin = space.begin;
          whole = omega (arith, space.whole);
          bound = omega (arith, bound);
          owned = rw count (
              Owned-snoc H (size / 4096)
                (Spares-Owned H (Spares-trans H before spares)
                  (Owned-cong H (words (put f end word)) (put_word word) old))
                (λ g. rw (put_last word) (Spares-IsOwned H spares own))
                (λ k h g g' e.
                  Fresh-apart H fresh (old.owned k h (rw (put_word word k h) at g)).page (
                    ap target (sym (put_word word k h))
                    ∙ (e ∙ (ap target (put_last word) ∙ word-target)))));
          above = λ va lo hi.
              let other : (va / 4096 == end / 4096) ≡ false = ground (arith, space.whole) in
              rw other (space.above va (omega arith) hi);
        }

    -- No memory was left for a table, and the page has been given back.
    detached-IsSpace :
        {u t : Machine H}
        → Shows H root f u
        → Spares H root m u
        → Freed H u t p
        → IsSpace H f t s.uvm × Spares H root s.machine t
    detached-IsSpace {u} {t} shows spares freed =
        let own_u = Spares-IsOwned H spares own in
        let spares_t =
          Freed-Spares H p shows.tree.root_page (rw word-target at own.not_root) fresh.page.aligned
            fresh.was_free (Spares-trans H before spares) freed in
        (
          record {
            shows = Freed-Shows H own_u (rw word-target freed) shows;
            begin = space.begin;
            whole = space.whole;
            bound = space.bound;
            owned = Spares-Owned H spares_t space.owned;
            above = space.above;
          },
          spares_t,
        )

  -- What the round returns from the state after the page was got.
  attach :
      (p : ℕ) {m : Machine H}
      → Fresh H s.machine m p
      → Ends
          (λ _. Attached H f perm s)
          (Unchanged H f perm s)
          (attach_page H perm p (record s { machine = m }))
  unfolding attach_page
  attach p {m} fresh =
      let end_fits : ltb (65536 + size) word_mod ≡ true = ground (arith, bound) in
      let start : s.uvm.begin + size ≡ end = ap (λ b. b + size) space.begin in
      rw (start, end_fits, user_perm perm access.0)
        (mapped (
          map_one H root m end p (perm + 16) (omega (arith, bound)) (omega (arith, p-lt fresh))
            (omega (arith, access.0), omega (arith, access.1)) f
            (Keeps-Shows H fresh.keeps space.shows) (omega (arith, space.whole)) fresh.page.aligned
            (omega (arith, bound)) (p-lt fresh)))
    where
      given_back :
          (u : Machine H)
          → Shows H root f u
          → Spares H root m u
          → Exhausted H m
          → (t : Machine H) × (dealloc H p page_layout u ≡ done tt t) × Freed H u t p
          → Ends
              (λ (_ : Unit {0}). Attached H f perm s)
              (Unchanged H f perm s)
              (and_then
                (within (λ n. record s { machine = n }) (dealloc H p page_layout u))
                (λ _. err))
      given_back u shows spares none_left (t, run, freed) =
          let kept = detached-IsSpace fresh shows spares freed in
          rw run (
            failed record {
              uvm = refl;
              space = kept.0;
              spares = kept.1;
              no_memory = inr (p, m, fresh, none_left);
            })

      mapped :
          {r : Run (Machine H) (Unit {0})}
          → Ends
              (λ _ u. Shows H root (put f end (word fresh)) u × Spares H root m u)
              (λ u. Shows H root f u × (Spares H root m u × Exhausted H m))
              r
          → Ends
              (λ (_ : Unit {0}). Attached H f perm s)
              (Unchanged H f perm s)
              (and_then (within (λ n. record s { machine = n }) (is_ok r)) (λ ok.
                if ok then add_page H else (on_machine H (dealloc H p page_layout) >>= λ _. err)))
      mapped (returned (shows, spares)) =
          let size_fits : ltb (size + 4096) word_mod ≡ true = ground (arith, bound) in
          rw size_fits (
            returned record {
              page = p;
              frame = (fresh.page.aligned, p-lt fresh);
              uvm = refl;
              space = attached-IsSpace fresh shows spares;
              was_free = fresh.was_free;
              spares = Spares-trans H (before fresh) spares;
            })
      mapped (failed {s = u} (shows, (spares, none_left))) =
          given_back u shows spares none_left (
            dealloc_lem H u p
              (rw (word-target fresh) at (Spares-IsOwned H spares (own fresh)).page))

  -- The round returns with a page added, or fails with the address space as it was.
  pub alloc_page-Attached :
      Ends (λ _. Attached H f perm s) (Unchanged H f perm s) (alloc_page H perm s)
  unfolding alloc_page
  alloc_page-Attached = got (alloc_lem H s.machine)
    where
      got :
          (p : ℕ) × (t : Machine H) × (alloc H page_layout s.machine ≡ done p t)
            × Keeps H s.machine t
            × ((p ≡ 0) × Exhausted H s.machine ⊎ Fresh H s.machine t p)
          → Ends
              (λ (_ : Unit {0}). Attached H f perm s)
              (Unchanged H f perm s)
              (and_then
                (within (λ n. record s { machine = n }) (alloc H page_layout s.machine))
                (λ page. if page == 0 then err else attach_page H perm page))
      got (p, t, run, keeps, inl (null, none_left)) =
          rw (run, null)
            (failed record {
              uvm = refl;
              space = Keeps-IsSpace H keeps space;
              spares = Keeps-Spares H space.shows.tree.root_page keeps;
              no_memory = inl none_left;
            })
      got (p, t, run, keeps, inr fresh) =
          let not_null : (p == 0) ≡ false = ground (arith, H.lo_pos, fresh.page.above) in
          rw (run, not_null) (attach p fresh)
