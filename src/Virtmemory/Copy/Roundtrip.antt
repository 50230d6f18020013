-- ===== src/Virtmemory/Copy/Roundtrip.antt =====
-- The copies to and from a user's page: what is copied out can be copied in again, and the address
-- space translates as before.
use rust_baremetal.Prelude.{
  ℕ, ◌+◌, ◌*◌, ◌%◌, ◌≤◌, ◌<◌, ◌≡◌, ◌≢◌, ◌∙◌, ◌⊎◌, inl, inr, refl, arith, Bool, true, false, List,
  All, length, Bool-cases, if◌then◌else◌,
}
use rust_baremetal.Prelude.Word.{word_mod}
use rust_baremetal.Machine.{Machine}
use rust_baremetal.Machine.Outcome.{done, err}
use rust_baremetal.Machine.Heap.{HeapAllocator}
use rust_baremetal.Machine.Memory.{
  Mem, read_word_cong, write_word, write_word_apart, read-write_self,
}
use rust_baremetal.Machine.Frames.{IsPage}
use rust_baremetal.Virtmemory.PageTable.View.{entry, target}
use rust_baremetal.Virtmemory.PageTable.Map.{Shows}
use rust_baremetal.Virtmemory.PageTable.Kept.{PageKept, kept-IsTree, kept-lookup}
use rust_baremetal.Virtmemory.PageTable.Clear.{IsOwned}
use rust_baremetal.Virtmemory.Copy.{copy_in, copy_in_cont, copy_in_str, copy_out, copy_out_cont}
use rust_baremetal.Virtmemory.Copy.Translate.{is_leaf, walkaddr-translated}
use rust_baremetal.Virtmemory.Copy.UserBytes.{
  frame_address, user_byte, user_bytes, user_bytes-bytes, frame_address-add,
}
use rust_baremetal.Virtmemory.Copy.Bytes.{
  bytes, put_bytes, read_loop-bytes, write_loop-put_bytes, str_loop-bytes, put_bytes_apart,
}

module _ (H : HeapAllocator) {root : ℕ} (f : ℕ → ℕ) (s : Machine H) (va : ℕ)
    (shows : Shows H root f s) (fits : va < word_mod) where
  -- Where the address is not mapped, a copy fails and changes nothing.
  pub copy_in_cont-none : (n : ℕ) → is_leaf (f va) ≡ false → copy_in_cont H root va n s ≡ err s
  unfolding copy_in_cont
  copy_in_cont-none n no_leaf = rw (walkaddr-translated H s va f shows fits) (rw no_leaf refl)

  pub copy_in_cont-bytes :
      (n : ℕ)
      → is_leaf (f va) ≡ true
      → copy_in_cont H root va n s ≡ done (bytes s.mem (frame_address (f va) va) n) s
  unfolding copy_in_cont
  copy_in_cont-bytes n leaf =
      rw (walkaddr-translated H s va f shows fits) (rw leaf (read_loop-bytes H n _ s))

  pub copy_out_cont-put_bytes :
      (xs : List ℕ)
      → is_leaf (f va) ≡ true
      → copy_out_cont H root va xs s
        ≡ done tt (record s { mem = put_bytes s.mem (frame_address (f va) va) xs })
  unfolding copy_out_cont
  copy_out_cont-put_bytes xs leaf =
      rw (walkaddr-translated H s va f shows fits) (rw leaf (write_loop-put_bytes H xs _ s))

-- A change of some bytes of a page that is no table leaves the tree alone.
module _ (H : HeapAllocator) {s : Machine H} {root w : ℕ} (f : ℕ → ℕ) (own : IsOwned H s root w)
    (p n : ℕ) (lo : target w ≤ p) (hi : p + n ≤ target w + 4096) (g : Mem)
    (same : (a : ℕ) → (a < p) ⊎ (p + n ≤ a) → g a ≡ s.mem a) where
  abbrev changed : Machine H
  changed = record s { mem = g }

  other-PageKept : (q : ℕ) → IsPage H s.heap q → q ≢ target w → PageKept H s changed q
  other-PageKept q page ne = record {
    page = page;
    word = λ a lo' hi'. read_word_cong s.mem g a (λ b l h. same b (grind (arith, page.aligned)));
  }

  pub changed-Shows : Shows H root f s → Shows H root f changed
  changed-Shows shows =
      let tree = shows.tree in
      let root_kept = other-PageKept root tree.root_page own.not_root in
      let tables_kept : (i : ℕ)
          → i < 1024
          → entry s.mem root i % 2 ≡ 1
          → PageKept H s changed (target (entry s.mem root i)) =
        λ i h v.
          other-PageKept (target (entry s.mem root i)) (tree.page i h v) (own.not_table i h v) in
      record {
        tree = kept-IsTree H tree root_kept tables_kept;
        view = λ va h. kept-lookup H tree root_kept tables_kept va h ∙ shows.view va h;
      }

  -- A page that is no table is none afterwards.
  pub changed-IsOwned : {v : ℕ} → Shows H root f s → IsOwned H s root v → IsOwned H changed root v
  changed-IsOwned shows other =
      let root_kept = other-PageKept root shows.tree.root_page own.not_root in
      let same : (i : ℕ) → i < 1024 → entry g root i ≡ entry s.mem root i =
        λ i h. root_kept.word (root + 4 * i) (omega arith) (omega arith) in
      record {
        page = other.page;
        not_root = other.not_root;
        not_table = λ i h. rw (same i h) (other.not_table i h);
      }

-- Bytes written in a page that is no table.
module _ (H : HeapAllocator) {s : Machine H} {root w : ℕ} (f : ℕ → ℕ) (own : IsOwned H s root w)
    (p : ℕ) (xs : List ℕ) (lo : target w ≤ p) (hi : p + length xs ≤ target w + 4096) where
  pub copied-Shows : Shows H root f s → Shows H root f (record s { mem = put_bytes s.mem p xs })
  copied-Shows =
      changed-Shows H f own p (length xs) lo hi (put_bytes s.mem p xs) (put_bytes_apart s.mem p xs)

module _ (H : HeapAllocator) (root : ℕ) where
  -- What a copy out of `xs` to `va` leaves.
  pub record CopiedOut (f : ℕ → ℕ) (va : ℕ) (xs : List ℕ) (s u : Machine H) : Type 0 where
    pub shows : Shows H root f u
    pub back : copy_in_cont H root va (length xs) u ≡ done xs u
    pub rest :
        (a : ℕ)
        → (a < frame_address (f va) va) ⊎ (frame_address (f va) va + length xs ≤ a)
        → u.mem a ≡ s.mem a

  -- `copy_in_str` of an address of a mapped page in which a zero byte stands behind `n` others, all in
  -- that page, ends there and returns those `n` bytes of the program, if they are valid text, and
  -- fails if they are not; nothing changes.
  pub copy_in_str-bytes :
      (from_utf8 : List ℕ → Bool) (f : ℕ → ℕ) (s : Machine H) (va n fuel : ℕ)
      → Shows H root f s
      → va < word_mod
      → is_leaf (f va) ≡ true
      → n < fuel
      → va % 4096 + n < 4096
      → All (λ b. b ≢ 0) (user_bytes f s.mem va n)
      → user_byte f s.mem (va + n) ≡ 0
      → copy_in_str H from_utf8 fuel root va s
        ≡ (if from_utf8 (user_bytes f s.mem va n) then done (user_bytes f s.mem va n) s else err s)
  unfolding copy_in_str
  copy_in_str-bytes from_utf8 f s va n fuel shows fits leaf enough inside text end =
      let same = user_bytes-bytes H f s shows n va fits (omega arith) in
      let there : s.mem (frame_address (f va) va + n) % 256 ≡ 0 =
        rw (frame_address-add H f s shows va n fits inside) at end in
      rw (walkaddr-translated H s va f shows fits, same)
        (rw leaf (rw (str_loop-bytes H n fuel _ s enough (rw same at text) there) (ground arith)))

  -- What a copy out of a word to `va` leaves.
  pub record WordOut (f : ℕ → ℕ) (va value : ℕ) (s u : Machine H) : Type 0 where
    pub shows : Shows H root f u
    pub back : copy_in H root va u ≡ done value u
    pub rest :
        (a : ℕ)
        → (a < frame_address (f va) va) ⊎ (frame_address (f va) va + 4 ≤ a)
        → u.mem a ≡ s.mem a

  -- `copy_out` of a word that stays within one page, a page of the address space that is no page
  -- table. If the page is mapped it returns, `copy_in` reads the same word back, every translation
  -- is as before, and no other byte has changed; if it is not, it fails and changes nothing.
  pub copy_out-WordOut :
      (f : ℕ → ℕ) (s : Machine H) (va value : ℕ)
      → Shows H root f s
      → va < word_mod
      → IsOwned H s root (f va)
      → va % 4096 + 4 ≤ 4096
      → value < word_mod
      → (is_leaf (f va) ≡ true)
          × ((u : Machine H) × (copy_out H root va value s ≡ done tt u) × WordOut f va value s u)
        ⊎ (is_leaf (f va) ≡ false) × (copy_out H root va value s ≡ err s)
  unfolding copy_out copy_in
  copy_out-WordOut f s va value shows fits own inside small = elim (Bool-cases (is_leaf (f va))) [
    | inl leaf ↦
        let p = frame_address (f va) va in
        let g = write_word s.mem p value in
        let bound = own.page.below in
        let apart : (a : ℕ) → (a < p) ⊎ (p + 4 ≤ a) → g a ≡ s.mem a =
          λ a h. write_word_apart s.mem p a value (grind arith) in
        let after : Shows H root f (record s { mem = g }) =
          changed-Shows H f own p 4 (omega (arith, bound, H.hi_le)) (omega (arith, bound, H.hi_le))
            g apart shows in
        inl (
          leaf,
          (
            record s { mem = g },
            rw (walkaddr-translated H s va f shows fits) (rw leaf refl),
            record {
              shows = after;
              back =
                  rw (walkaddr-translated H (record s { mem = g }) va f after fits)
                    (rw (leaf, read-write_self s.mem p value small) refl);
              rest = apart;
            },
          ),
        )
    | inr no_leaf ↦ inr (no_leaf, rw (walkaddr-translated H s va f shows fits) (rw no_leaf refl))
  ]
