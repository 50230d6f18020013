-- ===== src/Lifecycle/Exec/Pages.antt =====
-- The pages of a new program: its image, a guard page and a stack.
use rust_baremetal.Prelude.{ℕ, ◌+◌, ◌*◌, ◌/◌, ◌≤◌, ◌<◌, ◌≡◌, ◌∙◌, inl, refl, ap, arith, true, ltb}
use rust_baremetal.Prelude.Word.{word_mod}
use rust_baremetal.Machine.{Machine}
use rust_baremetal.Machine.Outcome.{
  M, Run, done, err, panic, Ends, returned, failed, and_then, unwrapped, within,
}
use rust_baremetal.Machine.Outcome
use rust_baremetal.Machine.Heap.{HeapAllocator, InPage, OutsidePage}
use rust_baremetal.Machine.Frames.{IsPage, Held}
use rust_baremetal.Virtmemory.PageTable.View.{target, entry}
use rust_baremetal.Machine.Memory.{read_word_cong}
use rust_baremetal.Virtmemory.Uvm.{load_image}
use rust_baremetal.Virtmemory.PageTable.Clear.{is_user_leaf}
use rust_baremetal.Virtmemory.PageTable.Spares.{
  Spares, Spares-trans, OffTree, owned-OffTree, held_outside,
}
use rust_baremetal.Virtmemory.Uvm.{Space, grow}
use rust_baremetal.Virtmemory.Uvm.Valid.{user_end, words, IsSpace}
use rust_baremetal.Virtmemory.Uvm.Attach.{IsFrame, user_entry, user_entry-target, IsAccess}
use rust_baremetal.Virtmemory.Uvm.Copied.{user_leaf}
use rust_baremetal.Virtmemory.Uvm.Grown.{IsUserPerm, Grown, Short}
use rust_baremetal.Virtmemory.Uvm.Grow.{grown_size, alloc_uvm-Grown}
use rust_baremetal.Virtmemory.Uvm.Load.{Loaded, load-Loaded}

module _ (H : HeapAllocator) (src len : ℕ) where
  -- The number of pages that the image takes.
  abbrev pub pages : ℕ
  pages = (len + 4095) / 4096

  -- The image's pages are held by the kernel.
  abbrev pub IsKept : (s : Machine H) (root : ℕ) → Type 0
  IsKept s root =
      (a : ℕ) → src ≤ a → a < src + pages * 4096 → Held H s.heap a × OffTree H root s.mem a

  -- The address space `t`, from `s` on, has the image at its start.
  pub record HasImage (view : ℕ → ℕ) (s t : Space H) : Type 0 where
    pub space : IsSpace H view t.machine t.uvm
    pub root : t.uvm.root ≡ s.uvm.root
    pub entries :
        (j : ℕ)
        → j < pages
        → (page : ℕ) × (words view j ≡ user_entry page 14)
          × IsFrame page
          × ((a : ℕ) → InPage page a → H.is_free s.machine.heap a ≡ true)
    pub image :
        (j i : ℕ)
        → j < pages
        → i < 4096
        → t.machine.mem (target (words view j) + i) ≡ s.machine.mem (src + j * 4096 + i)
    pub spares : Spares H s.uvm.root s.machine t.machine

  pub access : IsAccess 14
  access = (omega arith, refl, λ e. omega (arith, e))

  entry_leaf : {w : ℕ} (page : ℕ) → w ≡ user_entry page 14 → IsFrame page → is_user_leaf w ≡ true
  entry_leaf {w} page e is_frame = rw e (user_leaf page 14 (omega (arith, is_frame.1)) access)

  entry_target : {w page : ℕ} → w ≡ user_entry page 14 → IsFrame page → target w ≡ page
  entry_target {w} {page} e is_frame =
      ap target e ∙ user_entry-target page 14 (omega (arith, is_frame.1)) is_frame.0 access

  -- Pages behind the image leave it as it is.
  pub Grown-HasImage :
      {view : ℕ → ℕ} {s t u : Space H} (perm : ℕ)
      → pages * 4096 ≤ t.uvm.size
      → HasImage view s t
      → (grown : Grown H perm view t u) → HasImage grown.view s u
  Grown-HasImage {view} {s} {t} {u} perm within_t a grown =
      let same : (j : ℕ) → j < pages → words grown.view j ≡ words view j =
        λ j h. grown.old (65536 + j * 4096) (inl (omega arith)) in
      record {
        space = grown.space;
        root = grown.root ∙ a.root;
        entries = λ j h. rw (same j h) (a.entries j h);
        image = λ j i h k.
            let (page, e, is_frame, _) = a.entries j h in
            let own = a.space.owned.owned j (omega arith) (entry_leaf page e is_frame) in
            rw (same j h) (
              grown.spares.mem (target (words view j) + i)
                (own.page.held (target (words view j) + i) (omega arith, omega arith))
                (owned-OffTree H (target (words view j) + i) a.space.shows.tree own
                  (omega arith, omega arith))
              ∙ a.image j i h k);
        spares = Spares-trans H a.spares (rw a.root at grown.spares);
      }

  module _ (room : H.hi < word_mod) (view : ℕ → ℕ) (s t : Space H)
      (root_page : IsPage H s.machine.heap s.uvm.root) (kept : IsKept s.machine s.uvm.root)
      (space : IsSpace H view t.machine t.uvm) (root : t.uvm.root ≡ s.uvm.root)
      (whole : t.uvm.size ≡ pages * 4096)
      (entries : (j : ℕ)
        → j < pages
        → (page : ℕ) × (words view j ≡ user_entry page 14)
          × IsFrame page
          × ((a : ℕ) → InPage page a → H.is_free s.machine.heap a ≡ true))
      (spares : Spares H s.uvm.root s.machine t.machine) where
    outside :
        (a j : ℕ) → j < pages → Held H s.machine.heap a → OutsidePage (target (words view j)) a
    outside a j h held =
        let (page, e, is_frame, free) = entries j h in
        rw (entry_target e is_frame) (held_outside H s.machine page a free held)

    leaf : (j : ℕ) → j < pages → is_user_leaf (words view j) ≡ true
    leaf j h = let (page, e, is_frame, _) = entries j h in entry_leaf page e is_frame

    pub loaded :
        (u : Machine H) × (load_image H t.uvm.root 65536 src len t.machine ≡ done tt u)
        × Loaded H view t.uvm.root src t.machine pages pages u
    loaded =
        load-Loaded H view t.uvm t.machine src len space (omega (arith, whole)) room leaf
          (λ a j h lo hi. outside a j h (kept a lo hi).0)

    module _ {u : Machine H} (l : Loaded H view t.uvm.root src t.machine pages pages u) where
      loaded-Spares : Spares H s.uvm.root s.machine u
      loaded-Spares = record {
        held = λ a h. rw l.heap (spares.held a h);
        mem = λ a h off. l.elsewhere a (λ j j_lt. outside a j j_lt h) ∙ spares.mem a h off;
        tables = λ i h.
            let same : entry u.mem s.uvm.root i ≡ entry t.machine.mem s.uvm.root i =
              read_word_cong t.machine.mem u.mem (s.uvm.root + 4 * i) (λ a lo hi.
                l.elsewhere a
                  (λ j j_lt. outside a j j_lt (root_page.held a (omega arith, omega arith)))) in
            rw same (spares.tables i h);
      }

      pub loaded-HasImage : HasImage view s (record t { machine = u })
      loaded-HasImage = record {
        space = record {
          shows = l.shows;
          begin = space.begin;
          whole = space.whole;
          bound = space.bound;
          owned = record {
            owned = λ k h g. l.owned k (omega (arith, whole));
            distinct = space.owned.distinct;
          };
          above = space.above;
        };
        root = root;
        entries = entries;
        image = λ j i h k.
            let here = kept (src + j * 4096 + i) (omega arith) (omega arith) in
            l.image j i h k ∙ spares.mem (src + j * 4096 + i) here.0 here.1;
        spares = loaded-Spares;
      }

  -- A page more.
  pub grow-Grown :
      (perm : ℕ) {view : ℕ → ℕ} {t : Space H}
      → H.hi < word_mod
      → IsUserPerm perm
      → IsSpace H view t.machine t.uvm
      → 65536 + t.uvm.size + 4096 ≤ user_end
      → Ends
          (λ _ u. Grown H perm view t u × (u.uvm.size ≡ t.uvm.size + 4096))
          (Short H perm view (t.uvm.size + 4096) t)
          (grow H 4096 perm t)
  grow-Grown perm {view} {t} room is_perm space bound =
      let fits : ltb (t.uvm.size + 4096) word_mod ≡ true = ground (arith, bound) in
      let size : grown_size H t.uvm.size (t.uvm.size + 4096) ≡ t.uvm.size + 4096 =
        ground (arith, space.whole) in
      rw fits (
        Outcome.weaken
          (alloc_uvm-Grown H (t.uvm.size + 4096) perm view t space room (omega (arith, bound))
            is_perm)
          (λ _ u (grown, size_u). (grown, size_u ∙ size)) (λ u short. short))
