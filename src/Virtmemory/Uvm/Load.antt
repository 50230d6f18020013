-- ===== src/Virtmemory/Uvm/Load.antt =====
-- `load`: the pages of the program hold the image.
use rust_baremetal.Prelude.{
  ℕ, zero, suc, ◌+◌, ◌*◌, ◌/◌, ◌%◌, ◌≤◌, ◌<◌, ◌≡◌, ◌≢◌, ◌∙◌, ◌⊎◌, refl, sym, arith, true, ltb,
}
use native.Mathlib.Decide.{ℕ_discrete}
use mathlib.Core.Bool.{false≢true}
use rust_baremetal.Prelude.Word.{word_mod}
use rust_baremetal.Machine.{Machine}
use rust_baremetal.Machine.Outcome.{done}
use rust_baremetal.Machine.Heap.{HeapAllocator, OutsidePage}
use rust_baremetal.Machine.Memory.{
  Mem, copy_bytes, write_zeros, write_zeros_apart, read_word, read_word-lt,
}
use rust_baremetal.Process.{Uvm}
use rust_baremetal.Virtmemory.Pte.{from_word}
use rust_baremetal.Virtmemory.Pte.Codec.{from_word-IsDecoded}
use rust_baremetal.Virtmemory.PageTable.{only_walk}
use rust_baremetal.Virtmemory.PageTable.View.{entry, target, slot, lookup-valid, lookup-invalid}
use rust_baremetal.Virtmemory.PageTable.Walk.{walk-valid}
use rust_baremetal.Virtmemory.PageTable.Map.{Shows}
use rust_baremetal.Virtmemory.PageTable.Clear.{IsOwned, is_user_leaf}
use rust_baremetal.Virtmemory.Copy.Roundtrip.{changed-Shows, changed-IsOwned}
use rust_baremetal.Virtmemory.Uvm.{load_chunk, load_loop, load_image}
use rust_baremetal.Virtmemory.Uvm.Valid.{words, IsSpace}
use rust_baremetal.Virtmemory.Uvm.Copied.{copy_bytes_apart, copy_bytes_inside}

module _ (H : HeapAllocator) (f : ℕ → ℕ) (root src : ℕ) (s : Machine H) (n : ℕ) where
  -- From `s` to `t` the first `k` pages of the program were filled from `src` on, and no other byte
  -- has changed; `n` is the number of pages that the image takes.
  pub record Loaded (k : ℕ) (t : Machine H) : Type 0 where
    pub shows : Shows H root f t
    pub heap : t.heap ≡ s.heap
    pub owned : (j : ℕ) → j < n → IsOwned H t root (words f j)
    pub image :
        (j i : ℕ) → j < k → i < 4096 → t.mem (target (words f j) + i) ≡ s.mem (src + j * 4096 + i)
    pub elsewhere :
        (a : ℕ) → ((j : ℕ) → j < k → OutsidePage (target (words f j)) a) → t.mem a ≡ s.mem a

  module _ (fits : 65536 + n * 4096 < word_mod) (room : H.hi < word_mod)
      (leaf : (j : ℕ) → j < n → is_user_leaf (words f j) ≡ true)
      (distinct : (i j : ℕ) → i < j → j < n → target (words f i) ≢ target (words f j))
      (apart : (a j : ℕ)
        → j < n
        → src ≤ a
        → a < src + n * 4096
        → OutsidePage (target (words f j)) a) where
    module _ (k : ℕ) {t : Machine H} (a : Loaded k t) (more : k < n) where
      abbrev page : ℕ
      page = target (words f k)

      abbrev from : ℕ
      from = src + k * 4096

      -- Memory after the round.
      abbrev filled : Mem
      filled = copy_bytes (write_zeros t.mem page 4096) from page 4096

      filled_apart : (b : ℕ) → (b < page) ⊎ (page + 4096 ≤ b) → filled b ≡ t.mem b
      filled_apart b h =
          copy_bytes_apart (write_zeros t.mem page 4096) from page 4096 b h
          ∙ write_zeros_apart t.mem page 4096 b (grind (arith, h))

      filled_inside : (i : ℕ) → i < 4096 → filled (page + i) ≡ s.mem (from + i)
      filled_inside i h =
          let out : (j : ℕ) → j < n → OutsidePage (target (words f j)) (from + i) =
            λ j j_lt. apart (from + i) j j_lt (omega arith) (omega arith) in
          copy_bytes_inside (write_zeros t.mem page 4096) from page 4096 i h
          ∙ (write_zeros_apart t.mem page 4096 (from + i) (grind (arith, out k more))
              ∙ a.elsewhere (from + i) (λ j j_lt. out j (omega arith)))

      next-Loaded : Loaded (suc k) (record t { mem = filled })
      next-Loaded = record {
        shows =
            changed-Shows H f (a.owned k more) page 4096 (omega arith) (omega arith) filled
              filled_apart a.shows;
        heap = a.heap;
        owned = λ j h.
            changed-IsOwned H f (a.owned k more) page 4096 (omega arith) (omega arith) filled
              filled_apart a.shows (a.owned j h);
        image = λ j i h i_lt. elim (ℕ_discrete j k) [
          | yes e ↦ rw e (filled_inside i i_lt)
          | no ne ↦
              let other = distinct j k (omega arith) more in
              let aligned = (a.owned k more).page.aligned in
              let aligned' = (a.owned j (omega arith)).page.aligned in
              filled_apart (target (words f j) + i) (grind arith) ∙ a.image j i (omega arith) i_lt
        ];
        elsewhere = λ b out.
            filled_apart b (grind (arith, out k (omega arith)))
            ∙ a.elsewhere b (λ j h. out j (omega arith));
      }

      va_fits : 65536 + k * 4096 < word_mod
      va_fits = omega (arith, fits)

      valid : entry t.mem root ((65536 + k * 4096) / 4194304) % 2 ≡ 1
      valid = elim (ℕ_discrete (entry t.mem root ((65536 + k * 4096) / 4194304) % 2) 1) [
        | yes v ↦ v
        | no none_there ↦
            let unmapped : words f k ≡ 0 =
              sym (a.shows.view (65536 + k * 4096) va_fits)
              ∙ lookup-invalid t.mem root (65536 + k * 4096) none_there in
            absurd (false≢true (rw unmapped at (leaf k more)))
      ]

      chunk_done : load_chunk H root (65536 + k * 4096) from t ≡ done tt (record t { mem = filled })
      chunk_done =
          let read : read_word t.mem (slot t.mem root (65536 + k * 4096)) ≡ words f k =
            sym (lookup-valid t.mem root (65536 + k * 4096) valid)
            ∙ a.shows.view (65536 + k * 4096) va_fits in
          let word_lt : words f k < word_mod =
            rw read at (read_word-lt t.mem (slot t.mem root (65536 + k * 4096))) in
          let at : (from_word (words f k)).pa ≡ page =
            omega
              (arith, (from_word-IsDecoded (words f k) word_lt).pa, (a.owned k more).page.below) in
          rw (walk-valid H a.shows.tree (65536 + k * 4096) va_fits valid only_walk)
            (rw read (rw at refl))

    loop-Loaded :
        (r k : ℕ) {t : Machine H}
        → k + r ≡ n
        → Loaded k t
        → (u : Machine H) × (load_loop H r root (65536 + k * 4096) (src + k * 4096) t ≡ done tt u)
          × Loaded n u
    loop-Loaded zero k {t} e a = let all : k ≡ n = omega arith in (t, refl, rw all at a)
    loop-Loaded (suc r) k {t} e a =
        let more : k < n = omega arith in
        let add : ltb (65536 + k * 4096 + 4096) word_mod ≡ true = ground arith in
        let va : 65536 + k * 4096 + 4096 ≡ 65536 + suc k * 4096 = omega arith in
        let from' : src + k * 4096 + 4096 ≡ src + suc k * 4096 = omega arith in
        let (u, run, whole) = loop-Loaded r (suc k) (omega arith) (next-Loaded k a more) in
        (u, rw (chunk_done k a more, add, va, from') run, whole)

module _ (H : HeapAllocator) (f : ℕ → ℕ) (uvm : Uvm) (s : Machine H) where
  -- `load` of `len` bytes at `src` to the start of a well-formed address space of at least that size,
  -- where the pages that the image takes are pages of the user's, the whole pages at `src` lie
  -- outside them, and the heap ends below the top of memory: it returns, every page holds its 4096
  -- bytes of the image, all translates as before, and no other byte has changed.
  pub load-Loaded :
      (src len : ℕ)
      → IsSpace H f s uvm
      → len ≤ uvm.size
      → H.hi < word_mod
      → ((j : ℕ) → j < (len + 4095) / 4096 → is_user_leaf (words f j) ≡ true)
      → ((a j : ℕ)
          → j < (len + 4095) / 4096
          → src ≤ a
          → a < src + (len + 4095) / 4096 * 4096
          → OutsidePage (target (words f j)) a)
      → (u : Machine H) × (load_image H uvm.root 65536 src len s ≡ done tt u)
        × Loaded H f uvm.root src s ((len + 4095) / 4096) ((len + 4095) / 4096) u
  load-Loaded src len space small room leaf apart =
      let pages : (len + 4095) / 4096 ≤ uvm.size / 4096 = omega (arith, space.whole) in
      let start : Loaded H f uvm.root src s ((len + 4095) / 4096) 0 s = record {
        shows = space.shows;
        heap = refl;
        owned = λ j h. space.owned.owned j (omega arith) (leaf j h);
        image = λ j i h. absurd (omega arith);
        elsewhere = λ a out. refl;
      } in
      let src_0 : src + 0 * 4096 ≡ src = omega arith in
      let (u, run, loaded) =
        loop-Loaded H f uvm.root src s ((len + 4095) / 4096) (omega (arith, space.bound)) room leaf
          (λ i j h k same. omega (
            arith,
            space.owned.distinct i j (omega arith) (omega arith) (leaf i (omega arith)) (leaf j k)
                same,
          ))
          apart ((len + 4095) / 4096) 0 (omega arith) start in
      (u, rw src_0 at run, loaded)
