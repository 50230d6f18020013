-- ===== src/Lifecycle/Exec/Args.antt =====
-- The arguments of a program on its stack.
use rust_baremetal.Prelude.{
  ℕ, ◌+◌, ◌-◌, ◌/◌, ◌%◌, ◌≤◌, ◌<◌, ◌≡◌, ◌⊎◌, true, List, [], ◌∷◌, All, length,
}
use rust_baremetal.Prelude.Word.{word_mod}
use rust_baremetal.Machine.{Machine}
use rust_baremetal.Machine.Outcome.{Run, done, err, and_then}
use rust_baremetal.Machine.Outcome
use rust_baremetal.Machine.Heap.{HeapAllocator}
use rust_baremetal.Virtmemory.PageTable.View.{target}
use rust_baremetal.Virtmemory.PageTable.Map.{Shows}
use rust_baremetal.Virtmemory.Copy.{copy_in_cont}
use rust_baremetal.Virtmemory.Copy.Translate.{is_leaf}
use rust_baremetal.Virtmemory.Copy.Bytes.{put_bytes}

-- An argument that may be pushed: some bytes.
abbrev pub IsArg : ℕ → List ℕ → Type 0
IsArg stack_base arg = (0 < length arg) × (length arg ≤ stack_base) × All (λ b. b < 256) arg

-- Room that is enough for the arguments: each may lose seven bytes to its alignment.
unfoldable pub room : List (List ℕ) → ℕ
room [] = 0
room (arg ∷ args) = length arg + 7 + room args

module _ (H : HeapAllocator) (root : ℕ) where
  -- The arguments lie below `sp`, one below the other, and can be read back.
  abbrev pub Placed : (sp : ℕ) → List (List ℕ) → List ℕ → (last : ℕ) → Machine H → Type 0
  Placed sp [] [] last t = last ≡ sp
  Placed sp (arg ∷ args) (p ∷ ps) last t =
      (p % 8 ≡ 0)
      × (p + length arg ≤ sp)
      × (copy_in_cont H root p (length arg) t ≡ done arg t)
      × Placed p args ps last t
  Placed sp _ _ last t = ⊥

  module _ (f : ℕ → ℕ) (w base : ℕ) (flat : (va : ℕ) → va / 4096 ≡ base / 4096 → f va ≡ w)
      (aligned : base % 4096 ≡ 0) (top : base + 4096 < word_mod) (leaf : is_leaf w ≡ true) where
    -- What `push_args` leaves.
    pub record Pushed (sp : ℕ) (args : List (List ℕ)) (s : Machine H) (r : List ℕ × ℕ)
        (t : Machine H) : Type 0 where
      pub shows : Shows H root f t
      pub above : base ≤ r.1
      pub below : r.1 ≤ sp
      pub placed : Placed sp args r.0 r.1 t
      pub heap : t.heap ≡ s.heap
      pub rest :
          (a : ℕ)
          → (a < target w % word_mod + (r.1 - base)) ⊎ (target w % word_mod + (sp - base) ≤ a)
          → t.mem a ≡ s.mem a

    -- One argument has been copied to `p`, the others follow below it.
    module _ (sp : ℕ) (arg : List ℕ) (args : List (List ℕ)) (s : Machine H) (p : ℕ)
        (p_al : p % 8 ≡ 0) (lo : base ≤ p) (hi : p + length arg ≤ sp) (in_page : sp ≤ base + 4096)
        (is_arg : IsArg base arg) where
      abbrev frame : ℕ
      frame = target w % word_mod + (p - base)

      abbrev with_arg : Machine H
      with_arg = record s { mem = put_bytes s.mem frame arg }
