-- ===== src/Virtmemory/Uvm/Clone.antt =====
-- The loop of `clone`: each round copies one page into a frame of its own, and nothing else.
use rust_baremetal.Prelude.{
  ℕ, zero, suc, ◌+◌, ◌*◌, ◌/◌, ◌%◌, ◌≤◌, ◌<◌, ◌≡◌, ◌≢◌, ◌∙◌, inl, inr, sym, ap, arith,
}
use native.Mathlib.Decide.{ℕ_discrete}
use rust_baremetal.Prelude.Word.{word_mod}
use rust_baremetal.Machine.{Machine, page_layout}
use rust_baremetal.Machine.Outcome.{Run, done, panic, Ends, returned, failed, and_then, unwrapped}
use rust_baremetal.Machine.Heap.{HeapAllocator}
use rust_baremetal.Machine.Memory.{copy_bytes, read_word, read_word-lt}
use rust_baremetal.Machine.Frames.{Held, Fresh, Fresh-outside, Exhausted}
use rust_baremetal.Machine.FrameAllocator.{Frame, too_large, no_memory, frame, allocate-Frame}
use rust_baremetal.Process.{Uvm}
use rust_baremetal.Virtmemory.Pte.Codec.{leaf_entry-IsLeaf}
use rust_baremetal.Virtmemory.PageTable.{only_walk, map}
use rust_baremetal.Virtmemory.PageTable.View.{
  entry, target, slot, Keeps-IsTree, Keeps-lookup, Keeps-word, lookup-valid,
}
use rust_baremetal.Virtmemory.PageTable.Walk.{walk-valid, walk-none, decoded_not_v}
use rust_baremetal.Virtmemory.PageTable.Map.{Shows, put}
use rust_baremetal.Virtmemory.PageTable.One.{map_one}
use rust_baremetal.Virtmemory.PageTable.Spares.{Spares}
use rust_baremetal.Virtmemory.Uvm.{clone_entry, clone_page, clone_loop}
use rust_baremetal.Virtmemory.Uvm.Valid.{user_end, words, IsSpace, Keeps-Shows}
use rust_baremetal.Virtmemory.Uvm.Attach.{IsFrame, IsAccess, user_entry, user_entry-target}
use rust_baremetal.Virtmemory.Uvm.Copied.{
  IsUserEntry, user_leaf, copy_bytes_apart, copy_bytes_inside, Copied, with_guard, with_page,
}

module _ (H : HeapAllocator) (f : ℕ → ℕ) (uvm : Uvm) (s : Machine H) (to_root : ℕ) where
  -- Why a copy stops after some pages: no memory is left for a page, or for a table once the page is
  -- taken; or the original has no table for the next page.
  pub data Stops (k : ℕ) : Type 0 where
    full : {t : Machine H} → Copied H f to_root s k t → Exhausted H t → Stops k
    full_table :
        {t c : Machine H} {p : ℕ}
        → Copied H f to_root s k t
        → Fresh H t c p
        → Exhausted H c
        → Stops k
    no_table : entry s.mem uvm.root ((65536 + k * 4096) / 4194304) % 2 ≢ 1 → Stops k

module _ (H : HeapAllocator) (f : ℕ → ℕ) (uvm : Uvm) (s : Machine H) (space : IsSpace H f s uvm)
    (room : H.hi < word_mod) (entries : (k : ℕ) → k < uvm.size / 4096 → IsUserEntry (words f k))
    (to_root : ℕ) where
  abbrev pages : ℕ
  pages = uvm.size / 4096

  abbrev va_of : ℕ → ℕ
  va_of k = 65536 + k * 4096

  -- A round from a copy of `k` pages.
  data Round (k : ℕ) : Run (Machine H) (Unit {0}) → Type 0 where
    next : {u : Machine H} → Copied H f to_root s (suc k) u → Round k (done tt u)
    stops : Stops H f uvm s to_root k → Round k panic

  module _ (k : ℕ) {t : Machine H} (copied : Copied H f to_root s k t) (more : k < pages) where
    bound : va_of k + 4096 ≤ user_end
    bound = omega (arith, space.bound)

    module _ (page perm : ℕ) (access : IsAccess perm) (is_frame : IsFrame page)
        (from : words f k ≡ user_entry page perm) {m : Machine H} {p : ℕ}
        (fresh : Fresh H t m p) where
      abbrev filled : Machine H
      filled = record m { mem = copy_bytes m.mem page p 4096 }

      filled-Fresh : Fresh H t filled p
      filled-Fresh = record {
        page = fresh.page;
        was_free = fresh.was_free;
        keeps = record {
          held = fresh.keeps.held;
          mem = λ a h.
              copy_bytes_apart m.mem page p 4096 a (grind (arith, Fresh-outside H fresh a h))
              ∙ fresh.keeps.mem a h;
        };
      }

      filled_bytes : (i : ℕ) → i < 4096 → filled.mem (p + i) ≡ s.mem (page + i)
      filled_bytes i h =
          let own =
            space.owned.owned k more
              (rw from (user_leaf page perm (omega (arith, is_frame.1)) access)) in
          let at : target (words f k) ≡ page =
            ap target from
            ∙ user_entry-target page perm (omega (arith, is_frame.1)) is_frame.0 access in
          let held : Held H s.heap (page + i) = own.page.held (page + i) (omega (arith, at)) in
          copy_bytes_inside m.mem page p 4096 i h
          ∙ (fresh.keeps.mem (page + i) (copied.keeps.held (page + i) held)
              ∙ copied.keeps.mem (page + i) held)

      map-Round : Round k (unwrapped (map H to_root (va_of k) p 4096 (perm + 16) filled))
      map-Round = mapped (
          map_one H to_root filled (va_of k) p (perm + 16) (omega (arith, bound))
            (omega (arith, fresh.page.below)) (omega (arith, access.0), omega (arith, access.1))
            copied.view (Keeps-Shows H filled-Fresh.keeps copied.space.shows) (omega arith)
            fresh.page.aligned (omega (arith, bound)) (omega (arith, fresh.page.below)))
        where
          mapped :
              {r : Run (Machine H) (Unit {0})}
              → Ends
                  (λ _ u.
                    Shows H to_root (put copied.view (va_of k) (user_entry p perm)) u
                    × Spares H to_root filled u)
                  (λ u.
                    Shows H to_root copied.view u
                    × (Spares H to_root filled u × Exhausted H filled))
                  r
              → Round k (unwrapped r)
          mapped (returned (shows, spares)) = next (
              with_page H f to_root s k copied room bound page perm p access from filled-Fresh
                filled_bytes shows spares)
          mapped (failed (_, (_, none_left))) = stops (full_table copied filled-Fresh none_left)

    entry-Round : words f k < word_mod → Round k (clone_entry H to_root (va_of k) (words f k) t)
    unfolding clone_entry
    entry-Round w_lt = elim (entries k more) [
      | inl guard ↦
          rw (decoded_not_v (words f k) w_lt (λ e. omega (arith, guard, e)))
            (next (with_guard H f to_root s k copied room bound guard))
      | inr (page, perm, access, is_frame, from) ↦
          let leaf =
            leaf_entry-IsLeaf page (perm + 16) (omega (arith, is_frame.1))
              (omega (arith, access.0), omega (arith, access.1)) in
          let at : page / 4096 * 4096 ≡ page = omega (arith, is_frame.0) in
          rw (from, leaf.v, leaf.pa, leaf.perm, at)
            (got page perm access is_frame from (allocate-Frame H page_layout t))
    ]
      where
        got :
            (page perm : ℕ)
            → IsAccess perm
            → IsFrame page
            → words f k ≡ user_entry page perm
            → {r : Run (Machine H) (ℕ × ℕ)} → Frame H page_layout t r
            → Round k (
                and_then (unwrapped r) (λ to m. unwrapped (
                  map H to_root
                    (va_of k)
                    to.0
                    4096
                    (perm + 16)
                    (record m { mem = copy_bytes m.mem page to.0 4096 }))))
        got page perm access is_frame from (too_large large) = absurd (omega (arith, large))
        got page perm access is_frame from (no_memory none_left _) = stops (full copied none_left)
        got page perm access is_frame from (frame _ fresh) =
            map-Round page perm access is_frame from fresh

    page-Round : Round k (clone_page H uvm.root to_root (va_of k) t)
    unfolding clone_page
    page-Round =
        let fits : va_of k < word_mod = omega (arith, bound) in
        let tree = Keeps-IsTree H copied.keeps space.shows.tree in
        let top : entry t.mem uvm.root (va_of k / 4194304)
            ≡ entry s.mem uvm.root (va_of k / 4194304) =
          Keeps-word H copied.keeps (uvm.root + 4 * (va_of k / 4194304)) space.shows.tree.root_page
            (omega arith) (omega arith) in
        elim (ℕ_discrete (entry t.mem uvm.root (va_of k / 4194304) % 2) 1) [
          | no n ↦ rw (walk-none H tree (va_of k) fits n) (stops (no_table (rw (sym top) n)))
          | yes v ↦
              let read : read_word t.mem (slot t.mem uvm.root (va_of k)) ≡ words f k =
                sym (lookup-valid t.mem uvm.root (va_of k) v)
                ∙ (Keeps-lookup H copied.keeps space.shows.tree (va_of k) fits
                    ∙ space.shows.view (va_of k) fits) in
              rw (walk-valid H tree (va_of k) fits v only_walk) (
                rw read
                  (entry-Round (rw read at (read_word-lt t.mem (slot t.mem uvm.root (va_of k))))))
        ]

  -- How the loop ends.
  pub data Cloning : Run (Machine H) (Unit {0}) → Type 0 where
    all_pages : {u : Machine H} → Copied H f to_root s pages u → Cloning (done tt u)
    stopped : {k : ℕ} → k < pages → Stops H f uvm s to_root k → Cloning panic

  Round-Cloning :
      {k : ℕ} {r : Run (Machine H) (Unit {0})} {rest : Machine H → Run (Machine H) (Unit {0})}
      → k < pages
      → Round k r
      → ((u : Machine H) → Copied H f to_root s (suc k) u → Cloning (rest u))
      → Cloning (and_then r (λ _. rest))
  Round-Cloning more (next copied) rest = rest _ copied
  Round-Cloning more (stops why) rest = stopped more why

  pub loop-Cloning :
      (n k : ℕ) {t : Machine H}
      → Copied H f to_root s k t
      → k + n ≡ pages
      → Cloning (clone_loop H n uvm.root to_root (va_of k) t)
  unfolding clone_loop
  loop-Cloning zero k copied e = let last : k ≡ pages = omega arith in all_pages (rw last at copied)
  loop-Cloning (suc n) k copied e =
      let later : va_of k + 4096 ≡ va_of (suc k) = omega arith in
      Round-Cloning (omega arith) (page-Round k copied (omega arith))
        (λ u more. rw later (loop-Cloning n (suc k) more (omega arith)))
