-- ===== src/Virtmemory/PageTable/Clear.antt =====
-- `clear_entry`: one round of `unmap`, with or without giving the page back.
use rust_baremetal.Prelude.{
  ℕ, ◌/◌, ◌%◌, ◌<◌, ◌≡◌, ◌≢◌, ◌∙◌, inl, inr, refl, sym, arith, Bool, true, false, ◌&&◌, ◌||◌,
  Bool-cases, some, ◌==◌, if◌then◌else◌,
}
use mathlib.Core.Bool.{false≢true}
use native.Mathlib.Decide.{ℕ_discrete}
use rust_baremetal.Prelude.Word.{word_mod}
use rust_baremetal.Machine.{Machine, page_layout, dealloc}
use rust_baremetal.Machine.Outcome.{Run, done, and_then}
use rust_baremetal.Machine.Heap.{HeapAllocator, InPage, OutsidePage}
use rust_baremetal.Machine.Memory.{read_word, read_word-lt, write_word}
use rust_baremetal.Machine.Frames.{IsPage, dealloc_lem}
use rust_baremetal.Virtmemory.Pte.{from_word}
use rust_baremetal.Virtmemory.Pte.Codec.{bit_at, from_word-IsDecoded}
use rust_baremetal.Virtmemory.PageTable.{only_walk, walk, clear_entry}
use rust_baremetal.Virtmemory.PageTable.View.{
  entry, target, lookup, slot, IsTree, lookup-valid, lookup-invalid, lookup_same_page,
}
use rust_baremetal.Virtmemory.PageTable.Walk.{
  walk-valid, walk-none, decoded_v, decoded_not_v, decoded_target,
}
use rust_baremetal.Virtmemory.PageTable.Store.{stored-IsTree, lookup-stored, stored-entry}
use rust_baremetal.Virtmemory.PageTable.Kept.{
  PageKept, Freed-PageKept, kept_entry, kept-IsTree, kept-lookup,
}

-- A valid leaf that the user may reach.
abbrev pub is_user_leaf : ℕ → Bool
is_user_leaf w = bit_at 0 w && (bit_at 1 w || bit_at 2 w || bit_at 3 w) && bit_at 4 w

-- Whether `unmap` gives the page of the entry back.
abbrev pub gives_back : Bool → ℕ → Bool
gives_back free w = free && is_user_leaf w

-- A view without the page of `va`, if that page was mapped.
abbrev pub dropped : (ℕ → ℕ) → ℕ → ℕ → ℕ
dropped f va va' = if (va' / 4096 == va / 4096) && (f va' % 2 == 1) then 0 else f va'

module _ (H : HeapAllocator) where
  open H use {is_free}

  -- The page of the entry `w` belongs to the address space alone: it may be given back.
  pub record IsOwned (s : Machine H) (root w : ℕ) : Type 0 where
    pub page : IsPage H s.heap (target w)
    pub not_root : root ≢ target w
    pub not_table :
        (i : ℕ) → i < 1024 → entry s.mem root i % 2 ≡ 1 → target (entry s.mem root i) ≢ target w

  -- What one round of `unmap` leaves, where the entry for `va` was `w`.
  pub record Cleared (free : Bool) (root va w : ℕ) (s u : Machine H) : Type 0 where
    pub tree : IsTree H u root
    pub view :
        (va' : ℕ) → va' < word_mod → lookup u.mem root va' ≡ dropped (lookup s.mem root) va va'
    pub entries : (i : ℕ) → i < 1024 → entry u.mem root i ≡ entry s.mem root i
    pub gone : gives_back free w ≡ true → (a : ℕ) → InPage (target w) a → is_free u.heap a ≡ true
    pub rest :
        (a : ℕ)
        → (gives_back free w ≡ true → OutsidePage (target w) a)
        → is_free u.heap a ≡ is_free s.heap a

user_leaf_decoded :
    (w : ℕ)
    → w < word_mod
    → w % 2 ≡ 1
    → ((from_word w).r || (from_word w).w || (from_word w).x) && (from_word w).u ≡ is_user_leaf w
user_leaf_decoded w h v =
    let decoded = from_word-IsDecoded w h in
    let valid : bit_at 0 w ≡ true = ground arith in
    rw (decoded.r, decoded.w, decoded.x, decoded.u, valid) refl

gives_back_decoded :
    (free : Bool) (w : ℕ)
    → w < word_mod
    → w % 2 ≡ 1
    → free && ((from_word w).r || (from_word w).w || (from_word w).x) && (from_word w).u
      ≡ gives_back free w
gives_back_decoded true w h v = user_leaf_decoded w h v
gives_back_decoded false w h v = refl

module _ (H : HeapAllocator) {s : Machine H} {root : ℕ} (free : Bool) (va : ℕ) where
  -- An entry that is not valid is left as it is.
  Cleared-same :
      IsTree H s root
      → lookup s.mem root va % 2 ≢ 1
      → Cleared H free root va (lookup s.mem root va) s s
  Cleared-same tree n = record {
    tree = tree;
    view = λ va' h. ground (arith, lookup_same_page s.mem root va va');
    entries = λ i h. refl;
    gone = λ g. absurd (n (ground arith));
    rest = λ a h. refl;
  }

  -- A valid entry is overwritten, in a state `t` that differs from `s` at most by the page.
  Cleared-store :
      {t : Machine H} {q : ℕ}
      → slot t.mem root va ≡ q
      → va < word_mod
      → IsTree H t root
      → entry t.mem root (va / 4194304) % 2 ≡ 1
      → ((va' : ℕ) → va' < word_mod → lookup t.mem root va' ≡ lookup s.mem root va')
      → ((i : ℕ) → i < 1024 → entry t.mem root i ≡ entry s.mem root i)
      → lookup s.mem root va % 2 ≡ 1
      → (gives_back free (lookup s.mem root va) ≡ true
          → (a : ℕ) → InPage (target (lookup s.mem root va)) a
          → H.is_free t.heap a ≡ true)
      → ((a : ℕ)
          → (gives_back free (lookup s.mem root va) ≡ true
              → OutsidePage (target (lookup s.mem root va)) a)
          → H.is_free t.heap a ≡ H.is_free s.heap a)
      → Cleared H free root va (lookup s.mem root va) s (record t { mem = write_word t.mem q 0 })
  Cleared-store {t} at fits tree valid same entries v gone rest = rw (sym at) record {
    tree = stored-IsTree H tree va fits valid 0 (omega arith);
    view = λ va' h.
        lookup-stored H tree va fits valid 0 (omega arith) va' h
        ∙ (ground (arith, same va' h, lookup_same_page s.mem root va va'));
    entries = λ i h. stored-entry H tree va fits valid 0 (omega arith) i h ∙ entries i h;
    gone = gone;
    rest = rest;
  }

-- What `clear_entry` does, by the word `read` that it reads.
module _ (H : HeapAllocator) (s : Machine H) (q : ℕ) (free : Bool) {read : ℕ}
    (reads : read_word s.mem q ≡ read) where
  read-lt : read < word_mod
  read-lt = rw (sym reads) (read_word-lt s.mem q)

  clear-invalid : read % 2 ≢ 1 → clear_entry H free (some q) s ≡ done tt s
  unfolding clear_entry
  clear-invalid n = rw (reads, decoded_not_v read read-lt n) refl

  clear-keep :
      read % 2 ≡ 1
      → gives_back free read ≡ false
      → clear_entry H free (some q) s ≡ done tt (record s { mem = write_word s.mem q 0 })
  unfolding clear_entry
  clear-keep v no_free =
      rw (reads, decoded_v read read-lt v, gives_back_decoded free read read-lt v, no_free) refl

  clear-give :
      {t : Machine H}
      → read % 2 ≡ 1
      → gives_back free read ≡ true
      → target read < word_mod
      → dealloc H (target read) page_layout s ≡ done tt t
      → clear_entry H free (some q) s ≡ done tt (record t { mem = write_word t.mem q 0 })
  unfolding clear_entry
  clear-give v yes_free fits gone =
      rw
        (
          reads,
          decoded_v read read-lt v,
          gives_back_decoded free read read-lt v,
          yes_free,
          decoded_target read read-lt fits,
          gone,
        )
        refl

module _ (H : HeapAllocator) (s : Machine H) (root : ℕ) (free : Bool) (va : ℕ) where
  -- One round of `unmap`: the entry for `va` is found, the page given back if it is the user's, and
  -- the entry cleared.
  abbrev pub round : Run (Machine H) (Unit {0})
  round = and_then (walk H root va only_walk s) (clear_entry H free)

  abbrev leaf : ℕ
  leaf = lookup s.mem root va

  module _ (tree : IsTree H s root) (fits : va < word_mod)
      (owned : gives_back free leaf ≡ true → IsOwned H s root leaf) where
    -- The page goes back to the heap.
    round-give :
        entry s.mem root (va / 4194304) % 2 ≡ 1
        → leaf % 2 ≡ 1
        → gives_back free leaf ≡ true
        → (u : Machine H) × (clear_entry H free (some (slot s.mem root va)) s ≡ done tt u)
          × Cleared H free root va leaf s u
    round-give top v yes_free =
        let own = owned yes_free in
        let (t, gone, freed) = dealloc_lem H s (target leaf) own.page in
        let root_kept = Freed-PageKept H freed own.page.aligned tree.root_page own.not_root in
        let tables_kept : (i : ℕ)
            → i < 1024
            → entry s.mem root i % 2 ≡ 1
            → PageKept H s t (target (entry s.mem root i)) =
          λ i h e.
            Freed-PageKept H freed own.page.aligned (tree.page i h e) (own.not_table i h e) in
        let same = kept_entry H tree root_kept tables_kept in
        let read = lookup-valid s.mem root va top in
        (
          record t { mem = write_word t.mem (slot s.mem root va) 0 },
          clear-give H s (slot s.mem root va) free (sym read) v yes_free
              (omega (arith, own.page.below, H.hi_le)) gone,
          Cleared-store H free va (rw (same (va / 4194304) (omega arith)) refl) fits
              (kept-IsTree H tree root_kept tables_kept)
              (rw (same (va / 4194304) (omega arith)) top)
              (kept-lookup H tree root_kept tables_kept) same v (λ g. freed.released)
              (λ a h. freed.free_else a (h yes_free)),
        )

    pub round-Cleared : (u : Machine H) × (round ≡ done tt u) × Cleared H free root va leaf s u
    round-Cleared = elim (ℕ_discrete (entry s.mem root (va / 4194304) % 2) 1) [
      | no n ↦ (
        s,
        rw (walk-none H tree va fits n) (unfold clear_entry in refl),
        Cleared-same H free va tree (λ e. omega (arith, e, lookup-invalid s.mem root va n)),
      )
      | yes top ↦ rw (walk-valid H tree va fits top only_walk) (elim (ℕ_discrete (leaf % 2) 1) [
        | no n ↦ (
          s,
          clear-invalid H s (slot s.mem root va) free (sym (lookup-valid s.mem root va top)) n,
          Cleared-same H free va tree n,
        )
        | yes v ↦ elim (Bool-cases (gives_back free leaf)) [
          | inl yes_free ↦ round-give top v yes_free
          | inr no_free ↦ (
            record s { mem = write_word s.mem (slot s.mem root va) 0 },
            clear-keep H s (slot s.mem root va) free (sym (lookup-valid s.mem root va top)) v
                no_free,
            Cleared-store H free va refl fits tree top (λ a h. refl) (λ i h. refl) v
                (λ g. absurd (false≢true (sym no_free ∙ g))) (λ a h. refl),
          )
        ]
      ])
    ]
