-- ===== src/Kernel/Init/Stacks.antt =====
-- What `initproc` has built after some rounds: kernel stacks in the kernel's address space, and
-- empty address spaces for the processes.
use native.Mathlib.Decide.{ℕ_discrete}
use mathlib.Core.Bool.{false≢true}
use rust_baremetal.Prelude.{
  ℕ, zero, suc, ◌+◌, ◌*◌, ◌/◌, ◌%◌, ◌<◌, ◌≡◌, ◌≢◌, ◌∙◌, inl, inr, refl, sym, arith, true, false,
  Bool-cases, ◌==◌, if◌then◌else◌, List, [], ◌∷◌, ◌++◌,
}
use rust_baremetal.Machine.{Machine}
use rust_baremetal.Machine.Heap.{HeapAllocator, InPage}
use rust_baremetal.Machine.Memory.{read_word_cong}
use rust_baremetal.Machine.Frames.{IsPage, Keeps, Fresh, Fresh-apart}
use rust_baremetal.Process.{Process, Uvm}
use rust_baremetal.Process.Blank.{blank, stack_of}
use rust_baremetal.Virtmemory.Pte.{leaf_entry}
use rust_baremetal.Virtmemory.PageTable.View.{entry, IsTree, Keeps-word}
use rust_baremetal.Virtmemory.PageTable.Map.{Shows, put}
use rust_baremetal.Virtmemory.PageTable.Spares.{
  Spares, Spares-trans, OffTree, Spares-OffTree, Keeps-Spares,
}
use rust_baremetal.Virtmemory.PageTable.New.{Made}
use rust_baremetal.Virtmemory.Uvm.Valid.{Keeps-Shows}

-- `frames` with `p` at `n`.
abbrev pub with_frame : (ℕ → ℕ) → ℕ → ℕ → ℕ → ℕ
with_frame frames n p j = if j == n then p else frames j

-- The empty address space at `root`.
abbrev pub empty_space : ℕ → Uvm
empty_space root = record { begin = 0x10000; size = 0; root = root }

-- The slots that `m` rounds push, from slot `first` on.
unfoldable pub slots : ℕ → ℕ → (ℕ → ℕ) → List Process
slots first zero roots = []
slots first (suc m) roots = slots first m roots ++ (blank (first + m) (empty_space (roots m)) ∷ [])

pub slots_cong :
    (first m : ℕ) (f g : ℕ → ℕ) → ((j : ℕ) → j < m → f j ≡ g j) → slots first m f ≡ slots first m g
unfolding slots
slots_cong first zero f g same = refl
slots_cong first (suc m) f g same =
    rw (slots_cong first m f g (λ j h. same j (omega arith)), same m (omega arith)) refl

module _ (H : HeapAllocator) (root : ℕ) (f : ℕ → ℕ) (s : Machine H) (first : ℕ) where
  -- The address of page `k` of the stacks, two for each slot.
  abbrev pub stack_page : ℕ → ℕ
  stack_page k = stack_of (first + k / 2) + k % 2 * 4096

  -- A page that was free in `s`, and is no table of the kernel's.
  pub record OwnPage (t : Machine H) (p : ℕ) : Type 0 where
    pub page : IsPage H t.heap p
    pub was_free : (a : ℕ) → InPage p a → H.is_free s.heap a ≡ true
    pub off : (a : ℕ) → InPage p a → OffTree H root t.mem a

  -- A page table without an entry.
  pub record EmptyTable (t : Machine H) (p : ℕ) : Type 0 where
    pub own : OwnPage t p
    pub empty : (i : ℕ) → i < 1024 → entry t.mem p i ≡ 0

  -- From `s` to `t`, `m` slots got an empty page table, and `n` pages of stack were mapped, to read
  -- and write, each in a frame of its own. All else is as before.
  pub record Stacked (tables : ℕ → ℕ) (m n : ℕ) (t : Machine H) : Type 0 where
    pub view : ℕ → ℕ
    pub shows : Shows H root view t
    pub spares : Spares H root s t
    pub frames : ℕ → ℕ
    pub mapped : (k : ℕ) → k < n → view (stack_page k) ≡ leaf_entry (frames k) 0b0110
    pub own : (k : ℕ) → k < n → OwnPage t (frames k)
    pub distinct : (k j : ℕ) → k < j → j < n → frames k ≢ frames j
    pub elsewhere : (va : ℕ) → ((k : ℕ) → k < n → va / 4096 ≢ stack_page k / 4096) → view va ≡ f va
    pub empty : (j : ℕ) → j < m → EmptyTable t (tables j)
    pub tables_distinct : (j i : ℕ) → j < i → i < m → tables j ≢ tables i
    pub apart : (k j : ℕ) → k < n → j < m → frames k ≢ tables j

  -- A page that is fresh is no table.
  Fresh-OffTree :
      {t u : Machine H} {p : ℕ}
      → IsTree H t root
      → Fresh H t u p
      → (a : ℕ) → InPage p a
      → OffTree H root u.mem a
  Fresh-OffTree {t} {u} {p} tree fresh a inside = record {
    off_root =
        let ne = Fresh-apart H fresh tree.root_page in
        grind (arith, tree.root_page.aligned, fresh.page.aligned);
    off_table = λ i h v.
        let same : entry u.mem root i ≡ entry t.mem root i =
          Keeps-word H fresh.keeps (root + 4 * i) tree.root_page (omega arith) (omega arith) in
        let ne = Fresh-apart H fresh (tree.page i h (rw (sym same) v)) in
        rw same (grind (arith, fresh.page.aligned));
  }

  Fresh-OwnPage :
      {t u : Machine H} {p : ℕ} → IsTree H t root → Spares H root s t → Fresh H t u p → OwnPage u p
  Fresh-OwnPage tree spares fresh = record {
    page = fresh.page;
    was_free = λ a inside. elim (Bool-cases (H.is_free s.heap a)) [
      | inl free ↦ free
      | inr held ↦ absurd (false≢true (sym (spares.held a held) ∙ fresh.was_free a inside))
    ];
    off = Fresh-OffTree tree fresh;
  }

  module _ {t u : Machine H} (spares : Spares H root t u) where
    Spares-OwnPage : {p : ℕ} → OwnPage t p → OwnPage u p
    Spares-OwnPage own = record {
      page = record {
        aligned = own.page.aligned;
        above = own.page.above;
        below = own.page.below;
        held = λ a h. spares.held a (own.page.held a h);
      };
      was_free = own.was_free;
      off = λ a h. Spares-OffTree H a spares (own.page.held a h) (own.off a h);
    }

    Spares-EmptyTable : {p : ℕ} → EmptyTable t p → EmptyTable u p
    Spares-EmptyTable {p} table = record {
      own = Spares-OwnPage table.own;
      empty = λ i h.
          read_word_cong t.mem u.mem (p + 4 * i) (λ a lo hi.
            spares.mem a (table.own.page.held a (omega arith, omega arith))
              (table.own.off a (omega arith, omega arith)))
          ∙ table.empty i h;
    }

    -- A step that maps nothing.
    pub later :
        {tables : ℕ → ℕ} {m n : ℕ} (a : Stacked tables m n t)
        → Shows H root a.view u
        → Stacked tables m n u
    later a shows = record {
      view = a.view;
      shows = shows;
      spares = Spares-trans H a.spares spares;
      frames = a.frames;
      mapped = a.mapped;
      own = λ k h. Spares-OwnPage (a.own k h);
      distinct = a.distinct;
      elsewhere = a.elsewhere;
      empty = λ j h. Spares-EmptyTable (a.empty j h);
      tables_distinct = a.tables_distinct;
      apart = a.apart;
    }

  module _ {tables : ℕ → ℕ} {m n : ℕ} {t : Machine H} (a : Stacked tables m n t) where
    -- A step that leaves all memory alone that is held.
    pub later_kept : {u : Machine H} → Keeps H t u → Stacked tables m n u
    later_kept keeps =
        later (Keeps-Spares H a.shows.tree.root_page keeps) a (Keeps-Shows H keeps a.shows)

    -- A new page table.
    pub with_table :
        {p : ℕ} {u : Machine H} → Made H t p u → Stacked (with_frame tables m p) (suc m) n u
    with_table {p} {u} made =
        let kept = Keeps-Spares H a.shows.tree.root_page made.keeps in
        let fresh : Fresh H t u p = record {
          page = made.shows.tree.root_page;
          was_free = made.was_free;
          keeps = made.keeps;
        } in
        let last : EmptyTable u p = record {
          own = Fresh-OwnPage a.shows.tree a.spares fresh;
          empty = made.empty;
        } in
        let other : (j : ℕ) → j < m → with_frame tables m p j ≡ tables j = λ j h. ground arith in
        let newest : with_frame tables m p m ≡ p = ground arith in
        record {
          view = a.view;
          shows = Keeps-Shows H made.keeps a.shows;
          spares = Spares-trans H a.spares kept;
          frames = a.frames;
          mapped = a.mapped;
          own = λ k h. Spares-OwnPage kept (a.own k h);
          distinct = a.distinct;
          elsewhere = a.elsewhere;
          empty = λ j h. elim (ℕ_discrete j m) [
            | yes e ↦ rw (e, newest) last
            | no ne ↦ rw (other j (omega arith)) (Spares-EmptyTable kept (a.empty j (omega arith)))
          ];
          tables_distinct = λ j i h k. elim (ℕ_discrete i m) [
            | yes e ↦
                rw (e, newest, other j (omega arith))
                  (Fresh-apart H fresh (a.empty j (omega arith)).own.page)
            | no ne ↦
                rw (other i (omega arith), other j (omega arith))
                  (a.tables_distinct j i h (omega arith))
          ];
          apart = λ k j h i. elim (ℕ_discrete j m) [
            | yes e ↦ rw (e, newest) (Fresh-apart H fresh (a.own k h).page)
            | no ne ↦ rw (other j (omega arith)) (a.apart k j h (omega arith))
          ];
        }

    -- A new page of stack, in the frame `p`.
    pub with_stack :
        {p : ℕ} {c u : Machine H}
        → ((k : ℕ) → k < n → stack_page k / 4096 ≢ stack_page n / 4096)
        → Fresh H t c p
        → Shows H root (put a.view (stack_page n) (leaf_entry p 0b0110)) u
        → Spares H root c u
        → Stacked tables m (suc n) u
    with_stack {p} {c} {u} new fresh shows spares =
        let onward = Spares-trans H (Keeps-Spares H a.shows.tree.root_page fresh.keeps) spares in
        let last : OwnPage u p =
          Spares-OwnPage spares (Fresh-OwnPage a.shows.tree a.spares fresh) in
        let other : (k : ℕ) → k < n → with_frame a.frames n p k ≡ a.frames k =
          λ k h. ground arith in
        let newest : with_frame a.frames n p n ≡ p = ground arith in
        record {
          view = put a.view (stack_page n) (leaf_entry p 0b0110);
          shows = shows;
          spares = Spares-trans H a.spares onward;
          frames = with_frame a.frames n p;
          mapped = λ k h. elim (ℕ_discrete k n) [
            | yes e ↦ rw (e, newest) (ground arith)
            | no ne ↦
                let old : (stack_page k / 4096 == stack_page n / 4096) ≡ false =
                  ground (arith, new k (omega arith)) in
                rw (other k (omega arith), old) (a.mapped k (omega arith))
          ];
          own = λ k h. elim (ℕ_discrete k n) [
            | yes e ↦ rw (e, newest) last
            | no ne ↦ rw (other k (omega arith)) (Spares-OwnPage onward (a.own k (omega arith)))
          ];
          distinct = λ k j h i. elim (ℕ_discrete j n) [
            | yes e ↦
                rw (e, newest, other k (omega arith))
                  (Fresh-apart H fresh (a.own k (omega arith)).page)
            | no ne ↦
                rw (other j (omega arith), other k (omega arith)) (a.distinct k j h (omega arith))
          ];
          elsewhere = λ va out.
              let off : (va / 4096 == stack_page n / 4096) ≡ false =
                ground (arith, out n (omega arith)) in
              rw off (a.elsewhere va (λ k h. out k (omega arith)));
          empty = λ j h. Spares-EmptyTable onward (a.empty j h);
          tables_distinct = a.tables_distinct;
          apart = λ k j h i. elim (ℕ_discrete k n) [
            | yes e ↦ rw (e, newest) (λ same. Fresh-apart H fresh (a.empty j i).own.page (sym same))
            | no ne ↦ rw (other k (omega arith)) (a.apart k j (omega arith) i)
          ];
        }
