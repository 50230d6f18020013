-- ===== src/Virtmemory/PageTable.antt =====
-- `PageTable` of kernel/src/virtmemory.rs: two levels of 1024 entries, kept in pages of the heap.
-- A page table is the address of its root page. The `debug!` lines print nothing, since
-- `DEBUG` is false from boot on.
pub mod Grow
pub mod Clear
pub mod Unmap
pub mod Kept
pub mod Map
pub mod New
pub mod One
pub mod Spares
pub mod Store
pub mod View
pub mod Walk
use rust_baremetal.Prelude.{
  ℕ, zero, suc, ◌+◌, ◌*◌, ◌/◌, ◌%◌, Bool, not, ◌&&◌, ◌||◌, Option, none, some, ltb, ◌==◌,
  if◌then◌else◌,
}
use rust_baremetal.Prelude.Word.{◌<<◌}
use rust_baremetal.Machine.{
  Cmd, load, store, zeros, alloc, dealloc, page_layout, non_null, add_usize,
}
use rust_baremetal.Machine.Outcome.{panic, out_of_fuel, err, pure, ◌>>=◌, ◌>>◌, ok_or, expect}
use rust_baremetal.Machine.Heap.{HeapAllocator}
use rust_baremetal.Virtmemory.Pte.{Pte, from_word, table_entry, leaf_entry, va_from, vpn, page_size}

pub data WalkType : Type 0 where
  alloc_tables only_walk : WalkType

module _ (H : HeapAllocator) where
  -- `PageTable::new`; the fill stands before the check for null.
  pub new : Cmd H ℕ
  new = do ptr ← alloc H page_layout; zeros H ptr 4096; expect (non_null ptr)

  -- The branch of `walk` that adds a table of the second level.
  abbrev pub fill_table : ℕ → Option ℕ → Cmd H (Option ℕ)
  fill_table pte_addr none = pure none
  fill_table pte_addr (some a) = do zeros H a 4096; store H pte_addr (table_entry a); pure (some a)

  pub add_table : ℕ → WalkType → Cmd H (Option ℕ)
  add_table pte_addr only_walk = pure none
  add_table pte_addr alloc_tables = do
    new_page ← alloc H page_layout
    fill_table pte_addr (non_null new_page)

  -- The address of the entry in the table of the second level.
  abbrev pub leaf_addr : Option ℕ → Option ℕ → Option ℕ
  leaf_addr (some a) (some index) = some (a + 4 * index)
  leaf_addr _ _ = none

  -- `walk` from the index into the root on; an index that is `None` ends it.
  pub walk_index : ℕ → ℕ → WalkType → Option ℕ → Cmd H (Option ℕ)
  unfolding vpn
  walk_index root virt_a walk_type none = pure none
  walk_index root virt_a walk_type (some index) = do
    let pte_addr = root + 4 * index
    word ← load H pte_addr
    let pte = from_word word
    a ← if pte.v then pure (non_null (pte.ppn << 12)) else add_table pte_addr walk_type
    pure (leaf_addr a (vpn (va_from virt_a) 0))

  pub walk : ℕ → ℕ → WalkType → Cmd H (Option ℕ)
  unfolding walk_index
  walk root virt_a walk_type = walk_index root virt_a walk_type (vpn (va_from virt_a) 1)

  -- One round of the loop of `map`.
  pub map_page : ℕ → ℕ → ℕ → ℕ → Cmd H (Unit {0})
  map_page root vaddr paddr perm = do
    found ← walk root vaddr alloc_tables
    pte_addr ← ok_or found
    store H pte_addr (leaf_entry paddr perm)

  -- The `while` of `map`, on fuel.
  pub map_loop : ℕ → ℕ → ℕ → ℕ → ℕ → ℕ → Cmd H (Unit {0})
  map_loop zero root vaddr paddr vaddr_end perm = λ s. out_of_fuel
  map_loop (suc fuel) root vaddr paddr vaddr_end perm =
      if ltb vaddr vaddr_end
      then (do
        map_page root vaddr paddr perm
        vaddr' ← add_usize vaddr page_size
        paddr' ← add_usize paddr page_size
        map_loop fuel root vaddr' paddr' vaddr_end perm)
      else pure tt

  pub map : ℕ → ℕ → ℕ → ℕ → ℕ → Cmd H (Unit {0})
  map root virt phys size perm =
      if not (phys % page_size == 0)
      then (λ s. panic)
      else if not (virt % page_size == 0)
      then (λ s. panic)
      else if not (size % page_size == 0)
      then (λ s. panic)
      else (do
        vaddr_end ← add_usize virt size
        map_loop (size / page_size + 1) root virt phys vaddr_end perm)

  -- What `unmap` does with an entry that `walk` has found.
  pub clear_entry : Bool → Option ℕ → Cmd H (Unit {0})
  clear_entry free none = pure tt
  clear_entry free (some pte_addr) = do
    word ← load H pte_addr
    let pte = from_word word
    let is_leaf = pte.r || pte.w || pte.x
    let give_back =
        if free && is_leaf && pte.u then dealloc H (pte.ppn << 12) page_layout else pure tt
    if pte.v then give_back >> store H pte_addr 0 else pure tt

  pub unmap_loop : ℕ → ℕ → ℕ → Bool → Cmd H (Unit {0})
  unmap_loop zero root va free = pure tt
  unmap_loop (suc n) root va free = do
    found ← walk root va only_walk
    clear_entry free found
    va' ← add_usize va page_size
    unmap_loop n root va' free

  pub unmap : ℕ → ℕ → ℕ → Bool → Cmd H (Unit {0})
  unmap root virt size free =
      if not (size % page_size == 0) then err else unmap_loop (size / page_size) root virt free

  -- What `free_req` does with one entry; `visit` is its recursive call.
  pub free_entry : (ℕ → Cmd H (Unit {0})) → ℕ → Cmd H (Unit {0})
  free_entry visit word =
      let pte = from_word word in
      if pte.v
      then (if not pte.r && not pte.w && not pte.x
          then (do root ← expect (non_null (pte.ppn << 12)); visit root; store H root 0)
          else (λ s. panic))
      else pure tt

  -- The rounds of the `for` of `free_req` that are left, from entry `i` on.
  pub free_entries : (ℕ → Cmd H (Unit {0})) → ℕ → ℕ → ℕ → Cmd H (Unit {0})
  unfolding free_entry
  free_entries visit zero i root = pure tt
  free_entries visit (suc n) i root = do
    word ← load H (root + 4 * i)
    free_entry visit word
    free_entries visit n (i + 1) root

  -- `free_req`, on fuel for the depth.
  pub free_req : ℕ → ℕ → Cmd H (Unit {0})
  unfolding free_entries
  free_req zero root = λ s. out_of_fuel
  free_req (suc fuel) root = free_entries (free_req fuel) 1024 0 root

  -- `PageTable::free`: a table has two levels.
  pub free : ℕ → Cmd H (Unit {0})
  unfolding free_req
  free root = do free_req 2 root; dealloc H root page_layout
