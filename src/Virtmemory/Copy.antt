-- ===== src/Virtmemory/Copy.antt =====
-- `walkaddr` and the copies between the kernel and a user's address space, of
-- kernel/src/virtmemory.rs. The kernel's own addresses are physical ones. A `usize` is copied as a
-- word, bytes one by one.
pub mod Translate
pub mod Bytes
pub mod UserBytes
pub mod Roundtrip
mod Tests
use rust_baremetal.Prelude.{
  ℕ, zero, suc, ◌+◌, ◌%◌, Bool, not, ◌||◌, Option, none, some, List, [], ◌∷◌, ◌==◌, if◌then◌else◌,
}
use rust_baremetal.Machine.{Cmd, load, store}
use rust_baremetal.Machine.Outcome.{done, err, out_of_fuel, pure, ◌>>=◌, ◌>>◌, ok_or}
use rust_baremetal.Machine.Heap.{HeapAllocator}
use rust_baremetal.Machine.Memory.{write_byte}
use rust_baremetal.Virtmemory.Pte.{Pte, from_word, page_size}
use rust_baremetal.Virtmemory.PageTable.{walk, only_walk}

module _ (H : HeapAllocator) where
  abbrev pub load_byte : ℕ → Cmd H ℕ
  load_byte p = λ s. done (s.mem p % 256) s

  abbrev pub store_byte : ℕ → ℕ → Cmd H (Unit {0})
  store_byte p v = λ s. done tt (record s { mem = write_byte s.mem p v })

  -- What `walkaddr` does with the address that `walk` returns.
  pub leaf_address : ℕ → Option ℕ → Cmd H (Option ℕ)
  leaf_address virt_a none = pure none
  leaf_address virt_a (some pte_addr) = do
    word ← load H pte_addr
    let pte = from_word word
    if not pte.v || not (pte.r || pte.w || pte.x)
        then pure none
        else pure (some (pte.pa + virt_a % page_size))

  pub walkaddr : ℕ → ℕ → Cmd H (Option ℕ)
  walkaddr root virt_a = do found ← walk H root virt_a only_walk; leaf_address virt_a found

  -- `copy_in::<usize>`
  pub copy_in : ℕ → ℕ → Cmd H ℕ
  copy_in root addr = do found ← walkaddr root addr; user_addr ← ok_or found; load H user_addr

  -- The `for` of `copy_in_cont`, with `n` rounds left.
  pub read_loop : ℕ → ℕ → Cmd H (List ℕ)
  read_loop zero p = pure []
  read_loop (suc n) p = do byte ← load_byte p; bytes ← read_loop n (p + 1); pure (byte ∷ bytes)

  -- `copy_in_cont::<u8>`
  pub copy_in_cont : ℕ → ℕ → ℕ → Cmd H (List ℕ)
  unfolding read_loop
  copy_in_cont root addr len = do
    found ← walkaddr root addr
    user_addr ← ok_or found
    read_loop len user_addr

  -- The `loop` of `copy_in_str`, on fuel.
  pub str_loop : ℕ → ℕ → Cmd H (List ℕ)
  str_loop zero p = λ s. out_of_fuel
  str_loop (suc fuel) p = do
    byte ← load_byte p
    let rest = (do bytes ← str_loop fuel (p + 1); pure (byte ∷ bytes))
    if byte == 0 then pure [] else rest

  -- `copy_in_str`; `from_utf8` says which bytes are valid text.
  pub copy_in_str : (from_utf8 : List ℕ → Bool) → (fuel : ℕ) → ℕ → ℕ → Cmd H (List ℕ)
  unfolding str_loop
  copy_in_str from_utf8 fuel root addr = do
    found ← walkaddr root addr
    user_addr ← ok_or found
    bytes ← str_loop fuel user_addr
    if from_utf8 bytes then pure bytes else err

  -- `copy_out::<usize>`
  pub copy_out : ℕ → ℕ → ℕ → Cmd H (Unit {0})
  copy_out root addr value = do
    found ← walkaddr root addr
    user_addr ← ok_or found
    store H user_addr value

  -- The `for` of `copy_out_cont`.
  pub write_loop : List ℕ → ℕ → Cmd H (Unit {0})
  write_loop [] p = pure tt
  write_loop (x ∷ xs) p = do store_byte p x; write_loop xs (p + 1)

  -- `copy_out_cont::<u8>`
  pub copy_out_cont : ℕ → ℕ → List ℕ → Cmd H (Unit {0})
  unfolding write_loop
  copy_out_cont root addr bytes = do
    found ← walkaddr root addr
    user_addr ← ok_or found
    write_loop bytes user_addr
