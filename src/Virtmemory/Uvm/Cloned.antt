-- ===== src/Virtmemory/Uvm/Cloned.antt =====
-- `clone` as a whole: the new table, the loop over the pages, and what the copy is.
use rust_baremetal.Prelude.{ℕ, ◌+◌, ◌-◌, ◌*◌, ◌/◌, ◌<◌, ◌≡◌, inl, inr, refl, ap, arith, true, ltb}
use rust_baremetal.Prelude.Word.{word_mod}
use rust_baremetal.Machine.{Machine}
use rust_baremetal.Machine.Outcome.{Run, done, panic, and_then}
use rust_baremetal.Machine.Heap.{HeapAllocator}
use rust_baremetal.Machine.Frames.{Keeps, Exhausted}
use rust_baremetal.Process.{Uvm}
use rust_baremetal.Virtmemory.PageTable.Spares.{held_outside}
use rust_baremetal.Virtmemory.PageTable.New.{Made, new-Made}
use rust_baremetal.Virtmemory.Uvm.{clone}
use rust_baremetal.Virtmemory.Uvm.Valid.{words, IsSpace}
use rust_baremetal.Virtmemory.Uvm.Copied.{IsUserEntry, Copied, child, SamePage}
use rust_baremetal.Virtmemory.Uvm.Clone.{Stops, Cloning, all_pages, stopped, loop-Cloning}

module _ (H : HeapAllocator) (f : ℕ → ℕ) (uvm : Uvm) (s : Machine H) where
  -- How `clone` ends.
  pub data Cloned : Run (Machine H) Uvm → Type 0 where
    no_root : Exhausted H s → Cloned panic
    stops_at : {root k : ℕ} → k < uvm.size / 4096 → Stops H f uvm s root k → Cloned panic
    copied :
        {root : ℕ} {view : ℕ → ℕ} {u : Machine H}
        → IsSpace H view u (record uvm { root = root })
        → Keeps H s u
        → ((k : ℕ) → k < uvm.size / 4096 → SamePage H s u (words f k) (words view k))
        → Cloned (done (record uvm { root = root }) u)

  module _ (space : IsSpace H f s uvm) (room : H.hi < word_mod)
      (entries : (k : ℕ) → k < uvm.size / 4096 → IsUserEntry (words f k)) where
    -- The copy before its first page.
    Made-Copied : {root : ℕ} {t : Machine H} → Made H s root t → Copied H f root s 0 t
    Made-Copied {root} {t} made = record {
      view = λ _. 0;
      space = record {
        shows = made.shows;
        begin = refl;
        whole = refl;
        bound = omega arith;
        owned = record {
          owned = λ k h. absurd (omega arith);
          distinct = λ k j h. absurd (omega arith);
        };
        above = λ va lo hi. refl;
      };
      keeps = made.keeps;
      off = λ a h. record {
        off_root = held_outside H s root a made.was_free h;
        off_table = λ i h' v. absurd (omega (arith, made.empty i h', v));
      };
      same = λ j h. absurd (omega arith);
    }

    whole-IsSpace :
        {root : ℕ} {view : ℕ → ℕ} {u : Machine H}
        → IsSpace H view u (child H root (uvm.size / 4096))
        → IsSpace H view u (record uvm { root = root })
    whole-IsSpace {root} {view} {u} copy =
        let size : uvm.size / 4096 * 4096 ≡ uvm.size = omega (arith, space.whole) in
        let from : IsSpace H view u (record { begin = 65536; size = uvm.size; root = root }) =
          rw size at copy in
        record {
          shows = from.shows;
          begin = space.begin;
          whole = from.whole;
          bound = from.bound;
          owned = from.owned;
          above = from.above;
        }

    Cloning-Cloned :
        {root : ℕ} {r : Run (Machine H) (Unit {0})}
        → Cloning H f uvm s space room entries root r
        → Cloned (and_then r (λ _. done (record uvm { root = root })))
    Cloning-Cloned (all_pages copy) = copied (whole-IsSpace copy.space) copy.keeps copy.same
    Cloning-Cloned (stopped more why) = stops_at more why

    -- For a well-formed address space whose entries are guard entries or user entries of frames, with
    -- the heap below the top of memory: `clone` returns a well-formed address space of the same begin
    -- and size, in which every page has the permissions and the bytes of the original's, in a frame
    -- that was free, and all that was held before is kept, so that the original is as it was. Or it
    -- panics: because no page is free for the root, or, after some pages, none for a page or for a
    -- table, or because the original has no second-level table for the next page.
    pub clone-Cloned : Cloned (clone H uvm s)
    unfolding clone
    clone-Cloned =
        let start : uvm.begin + uvm.size ≡ 65536 + uvm.size = ap (λ b. b + uvm.size) space.begin in
        let fits : ltb (65536 + uvm.size) word_mod ≡ true = ground (arith, space.bound) in
        let count : (65536 + uvm.size - 65536 + 4095) / 4096 ≡ uvm.size / 4096 =
          omega (arith, space.whole) in
        elim (new-Made H s) [
          | inl (fails, none_left) ↦ rw fails (no_root none_left)
          | inr (root, t, run, made) ↦
              rw (run, start, fits, count)
                (Cloning-Cloned (
                  loop-Cloning H f uvm s space room entries root (uvm.size / 4096) 0
                    (Made-Copied made) (omega arith)))
        ]
