-- ===== src/Lifecycle/Exec/Built.antt =====
-- `kexec` up to the stack of the new program: the address space that it builds.
use rust_baremetal.Prelude.{
  ℕ, ◌+◌, ◌*◌, ◌%◌, ◌≤◌, ◌<◌, ◌≡◌, ◌∙◌, inl, inr, refl, sym, ap, arith, true,
}
use rust_baremetal.Prelude.Word.{word_mod}
use rust_baremetal.Machine.Outcome.{
  M, Run, done, err, panic, Ends, returned, failed, and_then, unwrapped, within,
}
use rust_baremetal.Machine.Heap.{HeapAllocator, InPage}
use rust_baremetal.Machine.Frames.{IsPage}
use rust_baremetal.Virtmemory.Uvm.{load_image}
use rust_baremetal.Virtmemory.PageTable.Spares.{Spares, Spares-trans}
use rust_baremetal.Virtmemory.Uvm.{Space, grow}
use rust_baremetal.Virtmemory.Uvm.Valid.{user_end, words, IsSpace}
use rust_baremetal.Virtmemory.Uvm.Attach.{IsFrame, user_entry}
use rust_baremetal.Virtmemory.Uvm.Grown.{Grown, Short, IsNewEntry-earlier}
use rust_baremetal.Virtmemory.Uvm.Grow.{alloc_uvm-Grown}
use rust_baremetal.Virtmemory.Uvm.Prepared.{prepared, Keeping, Unprepared, init_proc-Keeping}
use rust_baremetal.Lifecycle.Exec.{exec_pages}
use rust_baremetal.Lifecycle.Exec.Pages.{
  pages, IsKept, HasImage, access, Grown-HasImage, loaded, loaded-HasImage, grow-Grown,
}

module _ (H : HeapAllocator) (src len : ℕ) (f : ℕ → ℕ) (text frame : ℕ) (s : Space H) where
  -- How `exec_pages` ends.
  pub data Built : Run (Space H) (Unit {0}) → Type 0 where
    built :
        {view : ℕ → ℕ} {t : Space H} (page : ℕ)
        → HasImage H src len view s t
        → t.uvm.size ≡ pages H src len * 4096 + 8192
        → words view (pages H src len) % 2 ≡ 0
        → words view (pages H src len + 1) ≡ user_entry page 6
        → Built (done tt t)
    unprepared : {t : Space H} → Unprepared H s t → Built (err t)
    no_image :
        {t u : Space H}
        → Keeping H (prepared f text frame) s t
        → Short H 14 (prepared f text frame) len t u
        → Built (err u)
    no_stack :
        {view : ℕ → ℕ} {t u : Space H} (perm : ℕ)
        → HasImage H src len view s t
        → Short H perm view (t.uvm.size + 4096) t u
        → Built panic

  Ends-then :
      {A : Type 0} {P : A → Space H → Type 0} {Q : Space H → Type 0} {r : Run (Space H) A}
      (k : A → M (Space H) (Unit {0}))
      → Ends P Q r
      → ((x : A) (t : Space H) → P x t → Built (k x t))
      → ((t : Space H) → Q t → Built (err t))
      → Built (and_then r k)
  Ends-then k (returned p) next stop = next _ _ p
  Ends-then k (failed q) next stop = stop _ q

  Ends-unwrapped :
      {A : Type 0} {P : A → Space H → Type 0} {Q : Space H → Type 0} {r : Run (Space H) A}
      (k : A → M (Space H) (Unit {0}))
      → Ends P Q r
      → ((x : A) (t : Space H) → P x t → Built (k x t))
      → ((t : Space H) → Q t → Built panic)
      → Built (and_then (unwrapped r) k)
  Ends-unwrapped k (returned p) next stop = next _ _ p
  Ends-unwrapped k (failed q) next stop = stop _ q

  -- The stack, behind the guard page.
  with_stack :
      {view : ℕ → ℕ} {t : Space H} {r : Run (Space H) (Unit {0})}
      → HasImage H src len view s t
      → t.uvm.size ≡ pages H src len * 4096 + 4096
      → words view (pages H src len) % 2 ≡ 0
      → Ends
          (λ _ u. Grown H 6 view t u × (u.uvm.size ≡ t.uvm.size + 4096))
          (Short H 6 view (t.uvm.size + 4096) t)
          r
      → Built (unwrapped r)
  with_stack image size guard (failed short) = no_stack 6 image short
  with_stack {view} {t} image size guard (returned (grown, size_u)) =
      let old : words grown.view (pages H src len) ≡ words view (pages H src len) =
        grown.old (65536 + pages H src len * 4096) (inl (omega (arith, size))) in
      elim (grown.added (65536 + (pages H src len + 1) * 4096) (omega (arith, size))
        (omega (arith, size, size_u))) [
          | inl (none_at_all, _) ↦ absurd (omega (arith, none_at_all))
          | inr (page, e, _, _, _) ↦
              built page (Grown-HasImage H src len 6 (omega (arith, size)) image grown)
                (omega (arith, size, size_u)) (rw old guard) e
        ]

  -- The guard page behind the image.
  with_guard :
      {view : ℕ → ℕ} {t : Space H}
      → H.hi < word_mod
      → 65536 + pages H src len * 4096 + 8192 ≤ user_end
      → HasImage H src len view s t
      → t.uvm.size ≡ pages H src len * 4096
      → Built (and_then (unwrapped (grow H 4096 0 t)) (λ _ u. unwrapped (grow H 4096 6 u)))
  with_guard {view} {t} room bound image size =
      Ends-unwrapped (λ _ u. unwrapped (grow H 4096 6 u))
        (grow-Grown H src len 0 room (inl refl) image.space (omega (arith, bound, size)))
        (λ _ u (grown, size_u).
          elim (grown.added (65536 + pages H src len * 4096) (omega (arith, size))
            (omega (arith, size, size_u))) [
              | inl (_, guard) ↦
                  with_stack (Grown-HasImage H src len 0 (omega (arith, size)) image grown)
                    (omega (arith, size, size_u)) guard
                    (grow-Grown H src len 6 room (inr (omega arith, refl, λ e. omega (arith, e)))
                      grown.space (omega (arith, bound, size, size_u)))
              | inr (_, _, _, some_access, _) ↦ absurd (some_access refl)
            ])
        (λ u short. no_stack 0 image short)

  -- The image.
  with_image :
      {t u : Space H}
      → H.hi < word_mod
      → IsPage H s.machine.heap s.uvm.root
      → IsKept H src len s.machine s.uvm.root
      → 65536 + pages H src len * 4096 + 8192 ≤ user_end
      → Keeping H (prepared f text frame) s t
      → t.uvm.size ≡ 0
      → Grown H 14 (prepared f text frame) t u
      → u.uvm.size ≡ pages H src len * 4096
      → Built (
          and_then
            (within
              (λ m. record u { machine = m })
              (load_image H u.uvm.root 65536 src len u.machine))
            (λ _ v. and_then (unwrapped (grow H 4096 0 v)) (λ _ w. unwrapped (grow H 4096 6 w))))
  with_image {t} {u} room root_page kept bound keeping empty grown size =
      let same : t.uvm.root ≡ s.uvm.root = ap (λ v. v.root) keeping.uvm in
      let root : u.uvm.root ≡ s.uvm.root = grown.root ∙ same in
      let spares : Spares H s.uvm.root s.machine u.machine =
        Spares-trans H keeping.spares (rw same at grown.spares) in
      let entries : (j : ℕ)
          → j < pages H src len
          → (page : ℕ) × (words grown.view j ≡ user_entry page 14)
            × IsFrame page
            × ((a : ℕ) → InPage page a → H.is_free s.machine.heap a ≡ true) =
        λ j h.
          elim (IsNewEntry-earlier H 14 keeping.spares
            (grown.added (65536 + j * 4096) (omega (arith, empty)) (omega (arith, size)))) [
              | inl (none_at_all, _) ↦ absurd (omega (arith, none_at_all))
              | inr (page, e, is_frame, _, free) ↦ (page, e, is_frame, free)
            ] in
      let (m, run, l) =
        loaded H src len room grown.view s u root_page kept grown.space root size entries spares in
      rw run (
        with_guard room bound
          (loaded-HasImage H src len room grown.view s u root_page kept grown.space root size
            entries spares l)
          size)

  -- `exec_pages` on a well-formed address space without pages, where the heap ends below the top of
  -- memory, the image's whole pages are held by the kernel and are no table of it, image, guard and
  -- stack fit below the page of the trapframe, and the trampoline and the trapframe lie in aligned
  -- pages below the top of memory. It returns with a well-formed address space of the image's pages
  -- and two more: every page of the image was free, is the user's to read, write and execute, and
  -- holds its bytes of the image; the page behind is a guard, the last one the user's stack, to read
  -- and write; and nothing that was held and is no table of it has changed. Or it fails because no
  -- memory is left for a table of the shared pages, or for a page of the image or its table; or it
  -- panics because none is left for the two pages behind.
  pub exec_pages-Built :
      IsSpace H f s.machine s.uvm
      → s.uvm.size ≡ 0
      → H.hi < word_mod
      → IsKept H src len s.machine s.uvm.root
      → 65536 + pages H src len * 4096 + 8192 ≤ user_end
      → text % 4096 ≡ 0
      → text + 4096 < word_mod
      → frame % 4096 ≡ 0
      → frame + 4096 < word_mod
      → Built (exec_pages H text frame src len s)
  exec_pages-Built space empty room kept bound text_al text_fits frame_al frame_fits =
      Ends-then _ (init_proc-Keeping H f text frame s space text_al text_fits frame_al frame_fits)
        (λ _ t keeping.
          let none_yet : t.uvm.size ≡ 0 = ap (λ v. v.size) keeping.uvm ∙ empty in
          let at_t : IsSpace H (prepared f text frame) t.machine t.uvm =
            rw (sym keeping.uvm) at keeping.space in
          Ends-then _
            (alloc_uvm-Grown H len 14 (prepared f text frame) t at_t room (omega (arith, bound))
              (inr (access H src len)))
            (λ _ u (grown, size).
              let size_u : u.uvm.size ≡ pages H src len * 4096 = ground (arith, size, none_yet) in
              with_image room space.shows.tree.root_page kept bound keeping none_yet grown size_u)
            (λ u short. no_image keeping short))
        (λ t q. unprepared q)
