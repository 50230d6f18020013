-- ===== src/Virtmemory/Copy/Bytes.antt =====
-- The byte loops of the copies, as functions of memory.
use rust_baremetal.Prelude.{
  ℕ, zero, suc, ◌+◌, ◌%◌, ◌≤◌, ◌<◌, ◌≡◌, ◌≢◌, ◌∙◌, ◌⊎◌, inl, refl, ap, arith, true, false, List, [],
  ◌∷◌, All, length, ◌==◌, ==_iff,
}
use rust_baremetal.Machine.{Machine}
use rust_baremetal.Machine.Outcome.{done}
use rust_baremetal.Machine.Heap.{HeapAllocator}
use rust_baremetal.Machine.Memory.{Mem, write_byte}
use rust_baremetal.Virtmemory.Copy.{read_loop, str_loop, write_loop}

-- The `n` bytes from `p` on.
unfoldable pub bytes : Mem → ℕ → ℕ → List ℕ
bytes m p zero = []
bytes m p (suc n) = m p % 256 ∷ bytes m (p + 1) n

-- Memory with the given bytes from `p` on.
unfoldable pub put_bytes : Mem → ℕ → List ℕ → Mem
put_bytes m p [] = m
put_bytes m p (x ∷ xs) = put_bytes (write_byte m p x) (p + 1) xs

module _ (H : HeapAllocator) where
  pub read_loop-bytes : (n p : ℕ) (s : Machine H) → read_loop H n p s ≡ done (bytes s.mem p n) s
  unfolding read_loop bytes
  read_loop-bytes zero p s = refl
  read_loop-bytes (suc n) p s = rw (read_loop-bytes n (p + 1) s) refl

  pub write_loop-put_bytes :
      (xs : List ℕ) (p : ℕ) (s : Machine H)
      → write_loop H xs p s ≡ done tt (record s { mem = put_bytes s.mem p xs })
  unfolding write_loop put_bytes
  write_loop-put_bytes [] p s = refl
  write_loop-put_bytes (x ∷ xs) p s =
      write_loop-put_bytes xs (p + 1) (record s { mem = write_byte s.mem p x })

  -- With a zero behind `n` bytes that are not zero, the loop ends there.
  pub str_loop-bytes :
      (n fuel p : ℕ) (s : Machine H)
      → n < fuel
      → All (λ b. b ≢ 0) (bytes s.mem p n)
      → s.mem (p + n) % 256 ≡ 0
      → str_loop H fuel p s ≡ done (bytes s.mem p n) s
  unfolding str_loop bytes
  str_loop-bytes n zero p s h text end = absurd (omega (arith, h))
  str_loop-bytes zero (suc fuel) p s h text end =
      let here : p + 0 ≡ p = omega arith in
      let last : (s.mem p % 256 == 0) ≡ true = (==_iff _ 0).1 (rw here at end) in rw last refl
  str_loop-bytes (suc n) (suc fuel) p s h text end =
      let more : (s.mem p % 256 == 0) ≡ false = ground (arith, text.0) in
      let behind : p + suc n ≡ p + 1 + n = omega arith in
      rw (more, str_loop-bytes n fuel (p + 1) s (omega arith) text.1 (rw behind at end)) refl

-- A byte outside the range is kept.
pub put_bytes_apart :
    (m : Mem) (p : ℕ) (xs : List ℕ) (a : ℕ)
    → (a < p) ⊎ (p + length xs ≤ a)
    → put_bytes m p xs a ≡ m a
unfolding put_bytes write_byte
put_bytes_apart m p [] a h = refl
put_bytes_apart m p (x ∷ xs) a h =
    put_bytes_apart (write_byte m p x) (p + 1) xs a (grind arith) ∙ ground arith

-- What was written is read back.
pub bytes-put_bytes :
    (m : Mem) (p : ℕ) (xs : List ℕ)
    → All (λ x. x < 256) xs
    → bytes (put_bytes m p xs) p (length xs) ≡ xs
unfolding bytes put_bytes write_byte
bytes-put_bytes m p [] h = refl
bytes-put_bytes m p (x ∷ xs) h =
    let first : put_bytes (write_byte m p x) (p + 1) xs p % 256 ≡ x =
      ap (λ v. v % 256) (put_bytes_apart (write_byte m p x) (p + 1) xs p (inl (omega arith)))
      ∙ ground (arith, h.0) in
    rw (first, bytes-put_bytes (write_byte m p x) (p + 1) xs h.1) refl
