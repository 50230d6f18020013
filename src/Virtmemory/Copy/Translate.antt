-- ===== src/Virtmemory/Copy/Translate.antt =====
-- `walkaddr` is the translation of the Sv32 hardware, whatever the access.
use rust_baremetal.Prelude.{
  ℕ, ◌+◌, ◌/◌, ◌%◌, ◌<◌, ◌≡◌, refl, sym, arith, Bool, ◌&&◌, ◌||◌, Option, none, some, if◌then◌else◌,
}
use native.Mathlib.Decide.{ℕ_discrete}
use rust_baremetal.Prelude.Word.{word_mod}
use rust_baremetal.Machine.{Machine}
use rust_baremetal.Machine.Outcome.{done}
use rust_baremetal.Machine.Heap.{HeapAllocator}
use rust_baremetal.Machine.Memory.{read_word, read_word-lt}
use rust_baremetal.Virtmemory.Pte.Codec.{bit_at, from_word-IsDecoded}
use rust_baremetal.Virtmemory.PageTable.{only_walk}
use rust_baremetal.Virtmemory.PageTable.View.{
  entry, target, lookup, slot, IsTree, lookup-valid, lookup-invalid,
}
use rust_baremetal.Virtmemory.PageTable.Walk.{walk-valid, walk-none}
use rust_baremetal.Virtmemory.PageTable.Map.{Shows}
use rust_baremetal.Virtmemory.Copy.{leaf_address, walkaddr}

-- A valid entry that may be read, written or executed.
abbrev pub is_leaf : ℕ → Bool
is_leaf w = bit_at 0 w && (bit_at 1 w || bit_at 2 w || bit_at 3 w)

-- The physical address of `va`, where its entry is `w`.
abbrev pub translated : ℕ → ℕ → Option ℕ
translated w va = if is_leaf w then some (target w % word_mod + va % 4096) else none

module _ (H : HeapAllocator) (s : Machine H) (va : ℕ) where
  leaf_address_lem :
      (q : ℕ) {w : ℕ}
      → read_word s.mem q ≡ w
      → leaf_address H va (some q) s ≡ done (translated w va) s
  unfolding leaf_address
  leaf_address_lem q {w} e =
      let decoded = from_word-IsDecoded w (rw (sym e) (read_word-lt s.mem q)) in
      rw (e, decoded.v, decoded.r, decoded.w, decoded.x, decoded.pa) (ground arith)

  module _ {root : ℕ} where
    walkaddr-lookup :
        IsTree H s root
        → va < word_mod
        → walkaddr H root va s ≡ done (translated (lookup s.mem root va) va) s
    unfolding walkaddr
    walkaddr-lookup tree fits = elim (ℕ_discrete (entry s.mem root (va / 4194304) % 2) 1) [
      | yes v ↦
          rw (walk-valid H tree va fits v only_walk)
            (leaf_address_lem (slot s.mem root va) (sym (lookup-valid s.mem root va v)))
      | no n ↦
          rw (walk-none H tree va fits n, lookup-invalid s.mem root va n)
            (unfold leaf_address in refl)
    ]

    -- On a well-formed tree that shows `f`, `walkaddr` changes nothing and returns the physical
    -- address that `f` gives, or none if the page is not mapped or has no permission.
    pub walkaddr-translated :
        (f : ℕ → ℕ)
        → Shows H root f s
        → va < word_mod
        → walkaddr H root va s ≡ done (translated (f va) va) s
    walkaddr-translated f shows fits =
        rw (sym (shows.view va fits)) (walkaddr-lookup shows.tree fits)
