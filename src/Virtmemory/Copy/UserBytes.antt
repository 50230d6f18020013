-- ===== src/Virtmemory/Copy/UserBytes.antt =====
-- A program's bytes at its own addresses, and where they lie in memory.
use rust_baremetal.Prelude.{
  ℕ, zero, suc, ◌+◌, ◌%◌, ◌/◌, ◌≤◌, ◌<◌, ◌≡◌, ◌∙◌, refl, sym, ap, arith, List, [], ◌∷◌,
}
use rust_baremetal.Prelude.Word.{word_mod}
use rust_baremetal.Machine.{Machine}
use rust_baremetal.Machine.Heap.{HeapAllocator}
use rust_baremetal.Machine.Memory.{Mem}
use rust_baremetal.Virtmemory.PageTable.View.{target, lookup_same_page}
use rust_baremetal.Virtmemory.PageTable.Map.{Shows}
use rust_baremetal.Virtmemory.Copy.Bytes.{bytes}

-- The physical address of `va` in the page of the entry `w`.
abbrev pub frame_address : ℕ → ℕ → ℕ
frame_address w va = target w % word_mod + va % 4096

-- The byte at the virtual address `va`.
abbrev pub user_byte : (ℕ → ℕ) → Mem → ℕ → ℕ
user_byte f m va = m (frame_address (f va) va) % 256

-- The `n` bytes from the virtual address `va` on, each behind the translation of its own address.
unfoldable pub user_bytes : (ℕ → ℕ) → Mem → ℕ → ℕ → List ℕ
user_bytes f m va zero = []
user_bytes f m va (suc n) = user_byte f m va ∷ user_bytes f m (va + 1) n

module _ (H : HeapAllocator) {root : ℕ} (f : ℕ → ℕ) (s : Machine H) (shows : Shows H root f s) where
  -- An address of the same page is behind the same entry.
  same_entry : (va va' : ℕ) → va < word_mod → va' / 4096 ≡ va / 4096 → f va' ≡ f va
  same_entry va va' fits e =
      sym (shows.view va' (omega arith))
      ∙ (lookup_same_page s.mem root va va' e ∙ shows.view va fits)

  -- Bytes of one page lie one behind the other.
  pub frame_address-add :
      (va i : ℕ)
      → va < word_mod
      → va % 4096 + i < 4096
      → frame_address (f (va + i)) (va + i) ≡ frame_address (f va) va + i
  frame_address-add va i fits inside = rw (same_entry va (va + i) fits (omega arith)) (omega arith)

  pub user_bytes-bytes :
      (n va : ℕ)
      → va < word_mod
      → va % 4096 + n ≤ 4096
      → user_bytes f s.mem va n ≡ bytes s.mem (frame_address (f va) va) n
  unfolding user_bytes bytes
  user_bytes-bytes zero va fits inside = refl
  user_bytes-bytes (suc zero) va fits inside = refl
  user_bytes-bytes (suc (suc n)) va fits inside =
      let next = frame_address-add va 1 fits (omega arith) in
      let rest = user_bytes-bytes (suc n) (va + 1) (omega arith) (omega arith) in
      ap (λ ys. user_byte f s.mem va ∷ ys) (rest ∙ ap (λ p. bytes s.mem p (suc n)) next)
