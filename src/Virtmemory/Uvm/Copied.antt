-- ===== src/Virtmemory/Uvm/Copied.antt =====
-- What a part of a copy of an address space has in common with the original, and what one more page
-- adds to it.
use rust_baremetal.Prelude.{
  Bool-cases, ℕ, suc, ◌+◌, ◌-◌, ◌*◌, ◌/◌, ◌%◌, ◌≤◌, ◌<◌, ◌≡◌, ◌∙◌, ◌⊎◌, inl, inr, refl, sym, ap,
  arith, true, false, leb, ltb, ◌&&◌, ◌==◌,
}
use mathlib.Core.Bool.{false≢true}
use native.Mathlib.Decide.{ℕ_discrete}
use rust_baremetal.Prelude.Word.{word_mod}
use rust_baremetal.Machine.{Machine}
use rust_baremetal.Machine.Heap.{HeapAllocator, InPage}
use rust_baremetal.Machine.Memory.{Mem, copy_bytes}
use rust_baremetal.Machine.Frames.{Held, Keeps, Fresh}
use rust_baremetal.Process.{Uvm}
use rust_baremetal.Virtmemory.Pte.Codec.{leaf_entry_sum}
use rust_baremetal.Virtmemory.PageTable.View.{target}
use rust_baremetal.Virtmemory.PageTable.Map.{Shows, put}
use rust_baremetal.Virtmemory.PageTable.Clear.{IsOwned, is_user_leaf}
use rust_baremetal.Virtmemory.PageTable.Spares.{
  Spares, Spares-trans, OffTree, Spares-OffTree, owned-OffTree,
}
use rust_baremetal.Virtmemory.Uvm.{Space}
use rust_baremetal.Virtmemory.Uvm.Valid.{user_end, words, IsSpace, Keeps-Shows}
use rust_baremetal.Virtmemory.Uvm.Attach.{IsAccess, IsFrame, user_entry, user_entry-target}
use rust_baremetal.Virtmemory.Uvm.Attach
use rust_baremetal.Virtmemory.Uvm.Grow.{guard-IsSpace}

-- An entry of a program: a guard page's, or a page's with the user's bit.
abbrev pub IsUserEntry : ℕ → Type 0
IsUserEntry w =
    (w % 2 ≡ 0)
    ⊎ (page : ℕ) × (perm : ℕ) × IsAccess perm × IsFrame page × (w ≡ user_entry page perm)

pub user_leaf :
    (page perm : ℕ) → page < word_mod → IsAccess perm → is_user_leaf (user_entry page perm) ≡ true
user_leaf page perm h access =
    rw (leaf_entry_sum page (perm + 16) h (omega arith))
      (ground (arith, access.0, access.1, access.2))

pub copy_bytes_apart : (m : Mem) (p q n a : ℕ) → (a < q) ⊎ (q + n ≤ a) → copy_bytes m p q n a ≡ m a
unfolding copy_bytes
copy_bytes_apart m p q n a h = ground arith

pub copy_bytes_inside : (m : Mem) (p q n i : ℕ) → i < n → copy_bytes m p q n (q + i) ≡ m (p + i)
unfolding copy_bytes
copy_bytes_inside m p q n i h =
    let inside : (leb q (q + i) && ltb (q + i) (q + n)) ≡ true = ground arith in
    let same : q + i - q ≡ i = omega arith in rw (inside, same) refl

module _ (H : HeapAllocator) where
  -- The page of the entry `v` in `t` is a copy of the page of the entry `w` in `s`.
  abbrev pub SamePage : (s t : Machine H) (w v : ℕ) → Type 0
  SamePage s t w v =
      (w % 2 ≡ 0) × (v % 2 ≡ 0)
      ⊎ (page : ℕ) × (copy : ℕ) × (perm : ℕ) × IsAccess perm
        × IsFrame copy
        × (w ≡ user_entry page perm)
        × (v ≡ user_entry copy perm)
        × ((a : ℕ) → InPage copy a → H.is_free s.heap a ≡ true)
        × ((i : ℕ) → i < 4096 → t.mem (copy + i) ≡ s.mem (page + i))

  -- The address space of the copy when it has `k` pages.
  abbrev pub child : (root k : ℕ) → Uvm
  child root k = record { begin = 65536; size = k * 4096; root = root }

  -- `t` is `s` with a copy, at `root`, of the first `k` pages of the view `f`.
  pub record Copied (f : ℕ → ℕ) (root : ℕ) (s : Machine H) (k : ℕ) (t : Machine H) : Type 0 where
    pub view : ℕ → ℕ
    pub space : IsSpace H view t (child root k)
    pub keeps : Keeps H s t
    pub off : (a : ℕ) → Held H s.heap a → OffTree H root t.mem a
    pub same : (j : ℕ) → j < k → SamePage s t (words f j) (words view j)

  -- What leaves the tree and all that is held alone keeps what `s` holds.
  Keeps-later :
      {s t u : Machine H} {root : ℕ}
      → Keeps H s t
      → ((a : ℕ) → Held H s.heap a → OffTree H root t.mem a)
      → Spares H root t u
      → Keeps H s u
  Keeps-later keeps off spares = record {
    held = λ a h. spares.held a (keeps.held a h);
    mem = λ a h. spares.mem a (keeps.held a h) (off a h) ∙ keeps.mem a h;
  }

  free_before :
      {s t : Machine H}
      → Keeps H s t
      → (a : ℕ) → H.is_free t.heap a ≡ true
      → H.is_free s.heap a ≡ true
  free_before {s} keeps a free = elim (Bool-cases (H.is_free s.heap a)) [
    | inl yes_free ↦ yes_free
    | inr held ↦ absurd (false≢true (sym (keeps.held a held) ∙ free))
  ]

  -- A page of the copy keeps its bytes.
  SamePage-later :
      (s : Machine H) {t u : Machine H} {root : ℕ} (w v : ℕ) {view : ℕ → ℕ}
      → Shows H root view t
      → (is_user_leaf v ≡ true → IsOwned H t root v)
      → Spares H root t u
      → SamePage s t w v
      → SamePage s u w v
  SamePage-later s w v shows own spares (inl none) = inl none
  SamePage-later s {t} {u} w v shows own spares
        (inr (page, copy, perm, access, frame, from, to, free, bytes)) =
      let leaf = user_leaf copy perm (omega (arith, frame.1)) access in
      let at : target v ≡ copy =
        ap target to ∙ user_entry-target copy perm (omega (arith, frame.1)) frame.0 access in
      let owned = own (rw to leaf) in
      let kept : (i : ℕ) → i < 4096 → u.mem (copy + i) ≡ t.mem (copy + i) = λ i h.
        let inside : InPage (target v) (copy + i) = omega (arith, at) in
        spares.mem (copy + i) (owned.page.held (copy + i) inside)
          (owned-OffTree H (copy + i) shows.tree owned inside) in
      inr (page, copy, perm, access, frame, from, to, free, λ i h. kept i h ∙ bytes i h)

  module _ (f : ℕ → ℕ) (root : ℕ) (s : Machine H) (k : ℕ) {t : Machine H}
      (copied : Copied f root s k t) (room : H.hi < word_mod)
      (bound : 65536 + k * 4096 + 4096 ≤ user_end) where
    abbrev view : ℕ → ℕ
    view = copied.view

    abbrev at : Space H
    at = record { machine = t; uvm = child root k }

    longer : k * 4096 + 4096 ≡ suc k * 4096
    longer = omega arith

    -- One more page without an entry.
    pub with_guard : words f k % 2 ≡ 0 → Copied f root s (suc k) t
    with_guard guard = record {
      view = view;
      space = rw longer at (guard-IsSpace H 0 view at copied.space room bound);
      keeps = copied.keeps;
      off = copied.off;
      same = λ j h. elim (ℕ_discrete j k) [
        | yes e ↦
            rw e (inl (guard, copied.space.above (65536 + k * 4096) (omega arith) (omega arith)))
        | no ne ↦ copied.same j (omega arith)
      ];
    }

    -- One more page, in a frame that was free.
    pub with_page :
        {c u : Machine H} (page perm p : ℕ) (access : IsAccess perm)
        → words f k ≡ user_entry page perm
        → Fresh H t c p
        → ((i : ℕ) → i < 4096 → c.mem (p + i) ≡ s.mem (page + i))
        → Shows H root (put view (65536 + k * 4096) (user_entry p perm)) u
        → Spares H root c u
        → Copied f root s (suc k) u
    with_page {c} {u} page perm p access from fresh bytes shows spares =
        let before = Attach.before H view perm access at copied.space room bound fresh in
        let spares_u = Spares-trans H before spares in
        let own = Attach.own H view perm access at copied.space room bound fresh in
        let at_page = Attach.word-target H view perm access at copied.space room bound fresh in
        let p-lt = Attach.p-lt H view perm access at copied.space room bound fresh in
        let shows_c = Keeps-Shows H fresh.keeps copied.space.shows in
        let kept : (i : ℕ) → i < 4096 → u.mem (p + i) ≡ c.mem (p + i) = λ i h.
          let inside : InPage (target (user_entry p perm)) (p + i) = omega (arith, at_page) in
          spares.mem (p + i) (own.page.held (p + i) inside)
            (owned-OffTree H (p + i) shows_c.tree own inside) in
        let here : ((65536 + k * 4096) / 4096 == (65536 + k * 4096) / 4096) ≡ true = ground arith in
        let last_page : SamePage s u (words f k)
            (words (put view (65536 + k * 4096) (user_entry p perm)) k) =
          rw here (
            inr (
              page,
              p,
              perm,
              access,
              (fresh.page.aligned, p-lt),
              from,
              refl,
              (λ a inside. free_before copied.keeps a (fresh.was_free a inside)),
              (λ i h. kept i h ∙ bytes i h),
            )) in
        let keeps = Keeps-later copied.keeps copied.off spares_u in
        record {
          view = put view (65536 + k * 4096) (user_entry p perm);
          space = rw longer at (
              Attach.attached-IsSpace H view perm access at copied.space room bound fresh shows
                spares);
          keeps = keeps;
          off = λ a h. Spares-OffTree H a spares_u (copied.keeps.held a h) (copied.off a h);
          same = λ j h. elim (ℕ_discrete j k) [
            | yes e ↦ rw e last_page
            | no ne ↦
                let other : ((65536 + j * 4096) / 4096 == (65536 + k * 4096) / 4096) ≡ false =
                  ground arith in
                rw other (
                  SamePage-later s (words f j) (words view j) copied.space.shows
                    (copied.space.owned.owned j (omega arith)) spares_u
                    (copied.same j (omega arith)))
          ];
        }
