-- ===== src/Virtmemory/Kvm.antt =====
-- `Kvm` of kernel/src/virtmemory.rs: the address space of the kernel. The linker's addresses are
-- parameters: `end_text` of `etext`, `trampoline_text` of `_trampoline`.
pub mod Sections
use rust_baremetal.Prelude.{ℕ, zero, suc, ◌+◌, ◌-◌, ◌*◌, ltb, bit_or, if◌then◌else◌}
use rust_baremetal.Prelude.Word.{◌>>◌ as shift_right}
use rust_baremetal.Machine.{Machine, Cmd, add_usize, page_layout}
use rust_baremetal.Machine.Outcome.{
  M, Run, done, err, panic, out_of_fuel, deadlock, pure, ◌>>=◌, ◌>>◌, unwrap, and_then,
}
use rust_baremetal.Machine.Heap.{HeapAllocator}
use rust_baremetal.Machine.FrameAllocator.{allocate}
use rust_baremetal.Virtmemory.Pte.{
  page_size, kernel_start, ram_end, uart, trampoline, pte_r, pte_w, pte_x, satp_word,
}
use rust_baremetal.Virtmemory.PageTable.{map}
use rust_baremetal.Virtmemory.PageTable

-- A subtraction on `usize`, with the overflow check of the `dev` profile.
abbrev pub sub_usize {ℓ} : {S : Type ℓ} → ℕ → ℕ → M S ℕ
sub_usize a b = λ s. if ltb a b then panic else done (a - b) s

module _ (H : HeapAllocator) where
  -- The sections that `Kvm::init` maps.
  pub map_sections : (end_text trampoline_text root : ℕ) → Cmd H (Unit {0})
  map_sections end_text trampoline_text root = do
    map H root uart uart page_size (bit_or pte_r pte_w)
    text_size ← sub_usize end_text kernel_start
    map H root kernel_start kernel_start text_size (bit_or pte_x pte_r)
    data_size ← sub_usize ram_end end_text
    map H root end_text end_text data_size (bit_or pte_r pte_w)
    map H root trampoline trampoline_text page_size (bit_or pte_r pte_x)

  -- On `?` the table is dropped.
  abbrev pub dropping : ℕ → Run (Machine H) (Unit {0}) → Run (Machine H) (Unit {0})
  dropping root (done a s) = done a s
  dropping root (err s) = and_then (PageTable.free H root s) (λ _. err)
  dropping root panic = panic
  dropping root out_of_fuel = out_of_fuel
  dropping root deadlock = deadlock

  -- `Kvm::init`; a `Kvm` is the address of its root.
  pub init : (end_text trampoline_text : ℕ) → Cmd H ℕ
  unfolding map_sections
  init end_text trampoline_text = do
    root ← PageTable.new H
    λ s. dropping root (map_sections end_text trampoline_text root s)
    pure root

  -- The rounds of `alloc_kstack` that are left.
  abbrev pub kstack_loop : ℕ → (root va i : ℕ) → Cmd H (Unit {0})
  kstack_loop zero root va i = pure tt
  kstack_loop (suc n) root va i = do
    kstack_page ← unwrap (allocate H page_layout)
    page_va ← add_usize va (i * page_size)
    unwrap (map H root page_va kstack_page.0 page_size (bit_or pte_r pte_w))
    kstack_loop n root va (i + 1)

  -- `alloc_kstack`: `KERNEL_STACK_PAGES` rounds.
  abbrev pub alloc_kstack : (root va : ℕ) → Cmd H (Unit {0})
  alloc_kstack root va = kstack_loop 2 root va 0

-- The word that `start_kvm` writes to the csr `satp`.
abbrev pub start_kvm : (root : ℕ) → ℕ
start_kvm root = satp_word (record { mode = 1; asid = 0; ppn = shift_right root 12 })
