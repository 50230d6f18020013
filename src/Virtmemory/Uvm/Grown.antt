-- ===== src/Virtmemory/Uvm/Grown.antt =====
-- An address space that has grown: what its new pages translate to and what is as before.
use rust_baremetal.Prelude.{
  ℕ, ◌+◌, ◌%◌, ◌≤◌, ◌<◌, ◌≡◌, ◌≢◌, ◌∙◌, ◌⊎◌, inl, inr, refl, sym, arith, true, Bool-cases,
}
use mathlib.Core.Bool.{false≢true}
use rust_baremetal.Machine.{Machine}
use rust_baremetal.Machine.Heap.{HeapAllocator, InPage}
use rust_baremetal.Virtmemory.PageTable.Spares.{Spares, Spares-refl, Spares-trans}
use rust_baremetal.Virtmemory.Uvm.{Space}
use rust_baremetal.Virtmemory.Uvm.Valid.{IsSpace}
use rust_baremetal.Virtmemory.Uvm.Attach.{IsFrame, IsAccess, user_entry, NoMemory}

-- Permissions that `alloc` is called with: none for guard pages.
abbrev pub IsUserPerm : ℕ → Type 0
IsUserPerm perm = (perm ≡ 0) ⊎ IsAccess perm

pub below_or_from : (a b : ℕ) → a < b ⊎ (b ≤ a)
below_or_from a b = grind arith

module _ (H : HeapAllocator) where
  -- What a new page translates to: nothing where it is a guard page, else to a page that was free.
  abbrev pub IsNewEntry : (perm : ℕ) (s : Machine H) → ℕ → Type 0
  IsNewEntry perm s w =
      (perm ≡ 0) × (w % 2 ≡ 0)
      ⊎ (page : ℕ) × (w ≡ user_entry page perm)
        × IsFrame page
        × (perm ≢ 0)
        × ((a : ℕ) → InPage page a → H.is_free s.heap a ≡ true)

  -- `t` is `s` with pages added at the end.
  pub record Grown (perm : ℕ) (f : ℕ → ℕ) (s t : Space H) : Type 0 where
    pub view : ℕ → ℕ
    pub root : t.uvm.root ≡ s.uvm.root
    pub larger : s.uvm.size ≤ t.uvm.size
    pub space : IsSpace H view t.machine t.uvm
    pub old : (va : ℕ) → (va < 65536 + s.uvm.size) ⊎ (65536 + t.uvm.size ≤ va) → view va ≡ f va
    pub added :
        (va : ℕ)
        → 65536 + s.uvm.size ≤ va
        → va < 65536 + t.uvm.size
        → IsNewEntry perm s.machine (view va)
    pub spares : Spares H s.uvm.root s.machine t.machine

  pub Grown-refl :
      (perm : ℕ) (f : ℕ → ℕ) (s : Space H) → IsSpace H f s.machine s.uvm → Grown perm f s s
  Grown-refl perm f s space = record {
    view = f;
    root = refl;
    larger = omega arith;
    space = space;
    old = λ va h. refl;
    added = λ va lo hi. absurd (omega arith);
    spares = Spares-refl H s.uvm.root s.machine;
  }

  pub IsNewEntry-earlier :
      (perm : ℕ) {s t : Machine H} {root : ℕ} {w : ℕ}
      → Spares H root s t
      → IsNewEntry perm t w
      → IsNewEntry perm s w
  IsNewEntry-earlier perm spares (inl guard) = inl guard
  IsNewEntry-earlier perm {s} spares (inr (page, e, is_frame, access, free)) = inr (
    page,
    e,
    is_frame,
    access,
    λ a inside. elim (Bool-cases (H.is_free s.heap a)) [
      | inl yes_free ↦ yes_free
      | inr held ↦ absurd (false≢true (sym (spares.held a held) ∙ free a inside))
    ],
  )

  pub Grown-trans :
      (perm : ℕ) (f : ℕ → ℕ) {s t u : Space H} (a : Grown perm f s t)
      → Grown perm a.view t u
      → Grown perm f s u
  Grown-trans perm f {s} {t} {u} a b = record {
    view = b.view;
    root = b.root ∙ a.root;
    larger = omega (arith, a.larger, b.larger);
    space = b.space;
    old = λ va h. elim h [
      | inl low ↦ b.old va (inl (omega (arith, a.larger))) ∙ a.old va (inl low)
      | inr high ↦ b.old va (inr high) ∙ a.old va (inr (omega (arith, b.larger)))
    ];
    added = λ va lo hi. elim (below_or_from va (65536 + t.uvm.size)) [
      | inl low ↦ rw (b.old va (inl low)) (a.added va lo low)
      | inr high ↦ IsNewEntry-earlier perm a.spares (b.added va high hi)
    ];
    spares = Spares-trans H a.spares (rw a.root at b.spares);
  }

  -- No memory was left in the state `last`, after some pages.
  pub record Short (perm : ℕ) (f : ℕ → ℕ) (size : ℕ) (s t : Space H) : Type 0 where
    pub last : Space H
    pub until : Grown perm f s last
    pub no_memory : NoMemory H last.machine
    pub uvm : t.uvm ≡ last.uvm
    pub short : t.uvm.size < size
    pub grown : Grown perm f s t
