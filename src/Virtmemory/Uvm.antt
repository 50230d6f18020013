-- ===== src/Virtmemory/Uvm.antt =====
-- `Uvm` of kernel/src/virtmemory.rs: the address space of a program. It stands in the state beside
-- the machine, since its operations change it also where they fail.
pub mod Attach
pub mod Clone
pub mod Cloned
pub mod Copied
pub mod Free
pub mod Grow
pub mod Grown
pub mod Load
pub mod Prepared
pub mod Shrink
pub mod Valid
use rust_baremetal.Prelude.{
  ℕ, zero, suc, ◌+◌, ◌-◌, ◌*◌, ◌/◌, ◌%◌, Bool, true, false, not, Option, none, some, ltb, ◌==◌,
  bit_or, if◌then◌else◌,
}
use rust_baremetal.Machine.{Machine, Cmd, load, zeros, alloc, dealloc, page_layout, add_usize}
use rust_baremetal.Machine.Outcome.{
  M, Run, done, err, panic, out_of_fuel, pure, ◌>>=◌, ◌>>◌, ok_or, expect, unwrap, within, is_ok,
}
use rust_baremetal.Machine.Heap.{HeapAllocator}
use rust_baremetal.Machine.Memory.{copy_bytes}
use rust_baremetal.Machine.FrameAllocator.{allocate}
use rust_baremetal.Process.{Uvm}
use rust_baremetal.Virtmemory.Pte.{
  from_word, page_size, user_start, trampoline, trapframe, pte_r, pte_w, pte_x, pte_u,
}
use rust_baremetal.Virtmemory.PageTable.{walk, only_walk, map, unmap}
use rust_baremetal.Virtmemory.PageTable

-- `Uvm::end`
abbrev pub uvm_end {ℓ} : {S : Type ℓ} → Uvm → M S ℕ
uvm_end uvm = add_usize uvm.begin uvm.size

module _ (H : HeapAllocator) where
  pub record Space : Type 0 where
    pub machine : Machine H
    pub uvm : Uvm

  -- A command on the machine.
  abbrev pub on_machine : {A : Type 0} → Cmd H A → M Space A
  on_machine c = λ s. within (λ m. record s { machine = m }) (c s.machine)

  abbrev pub set_size : ℕ → M Space (Unit {0})
  set_size n = λ s. done tt (record s { uvm = record s.uvm { size = n } })

  -- `Uvm::new`
  unfoldable pub new : Cmd H Uvm
  new = do root ← PageTable.new H; pure (record { begin = user_start; size = 0; root = root })

  -- `self.size += PAGESIZE`
  abbrev pub add_page : M Space (Unit {0})
  add_page = do uvm ← λ s. done s.uvm s; size ← add_usize uvm.size page_size; set_size size

  -- What a round of `alloc` does with the page that it got.
  pub attach_page : (perm : ℕ) → ℕ → M Space (Unit {0})
  attach_page perm page = do
    uvm ← λ s. done s.uvm s
    end ← uvm_end uvm
    mapped ← on_machine (λ m. is_ok (map H uvm.root end page page_size (bit_or perm pte_u) m))
    if mapped then add_page else (do on_machine (dealloc H page page_layout); err)

  -- A round of the `while` of `alloc`.
  pub alloc_page : (perm : ℕ) → M Space (Unit {0})
  unfolding attach_page
  alloc_page perm = do
    page ← on_machine (alloc H page_layout)
    if page == 0 then err else attach_page perm page

  -- The `while`, on fuel.
  pub alloc_loop : ℕ → (size perm : ℕ) → M Space (Unit {0})
  alloc_loop zero size perm = λ s. out_of_fuel
  alloc_loop (suc fuel) size perm = λ s.
      let rest = alloc_loop fuel size perm in
      if ltb s.uvm.size size
      then ((if perm == 0 then add_page else alloc_page perm) >>= λ _. rest) s
      else done tt s

  pub alloc_uvm : (size perm : ℕ) → M Space (Unit {0})
  unfolding alloc_loop alloc_page
  alloc_uvm size perm = alloc_loop (size / page_size + 2) size perm

  abbrev pub grow : (size perm : ℕ) → M Space (Unit {0})
  grow size perm = do uvm ← λ s. done s.uvm s; total ← add_usize uvm.size size; alloc_uvm total perm

  pub dealloc_uvm : (size : ℕ) → M Space (Unit {0})
  dealloc_uvm size = if not (size % page_size == 0) then err else (do
    uvm ← λ s. done s.uvm s
    newend ← add_usize user_start size
    len ← λ s. if ltb uvm.size size then panic else done (uvm.size - size) s
    on_machine (unmap H uvm.root newend len true)
    set_size size)

  pub free : M Space (Unit {0})
  free = do
    uvm ← λ s. done s.uvm s
    on_machine (unwrap (unmap H uvm.root trampoline page_size false))
    on_machine (unwrap (unmap H uvm.root trapframe page_size false))
    if ltb 0 uvm.size
        then on_machine (unwrap (unmap H uvm.root uvm.begin uvm.size true))
        else pure tt

  -- `init_proc`; `frame` is the address of the process's trapframe.
  abbrev pub init_proc : (trampoline_text frame : ℕ) → M Space (Unit {0})
  init_proc trampoline_text frame = do
    uvm ← λ s. done s.uvm s
    on_machine (map H uvm.root trampoline trampoline_text page_size (bit_or pte_r pte_x))
    on_machine (map H uvm.root trapframe frame page_size (bit_or pte_r pte_w))

  abbrev pub copy_page : (from to : ℕ) → Cmd H (Unit {0})
  copy_page from to = λ s. done tt (record s { mem = copy_bytes s.mem from to page_size })

  -- A round of the `for` of `load`: the chunk of the image at `src` goes to the page of `va`.
  abbrev pub load_chunk : (root va src : ℕ) → Cmd H (Unit {0})
  load_chunk root va src = do
    found ← walk H root va only_walk
    pte_addr ← ok_or found
    word ← load H pte_addr
    let pte = from_word word
    zeros H pte.pa page_size
    copy_page src pte.pa

  -- The rounds that are left.
  abbrev pub load_loop : ℕ → (root va src : ℕ) → Cmd H (Unit {0})
  load_loop zero root va src = pure tt
  load_loop (suc n) root va src = do
    load_chunk root va src
    va' ← add_usize va page_size
    load_loop n root va' (src + page_size)

  -- `load` of the `len` bytes at `src` in the kernel's memory.
  abbrev pub load_image : (root va src len : ℕ) → Cmd H (Unit {0})
  load_image root va src len =
      if not (va % page_size == 0)
      then err
      else load_loop ((len + (page_size - 1)) / page_size) root va src

  -- A round of the `for` of `clone`, from the table `root` to the table `to_root`.
  pub clone_entry : (to_root addr word : ℕ) → Cmd H (Unit {0})
  clone_entry to_root addr word =
      let pte = from_word word in
      if not pte.v then pure tt else (do
        to ← unwrap (allocate H page_layout)
        copy_page pte.pa to.0
        unwrap (map H to_root addr to.0 page_size pte.perm))

  pub clone_page : (root to_root addr : ℕ) → Cmd H (Unit {0})
  unfolding clone_entry
  clone_page root to_root addr = do
    found ← walk H root addr only_walk
    pte_addr ← expect found
    word ← load H pte_addr
    clone_entry to_root addr word

  pub clone_loop : ℕ → (root to_root addr : ℕ) → Cmd H (Unit {0})
  unfolding clone_page
  clone_loop zero root to_root addr = pure tt
  clone_loop (suc n) root to_root addr = do
    clone_page root to_root addr
    clone_loop n root to_root (addr + page_size)

  pub clone : Uvm → Cmd H Uvm
  unfolding new clone_loop
  clone uvm = do
    vm ← unwrap new
    end ← uvm_end uvm
    clone_loop ((end - user_start + (page_size - 1)) / page_size) uvm.root vm.root user_start
    pure (record vm { begin = uvm.begin; size = uvm.size })
