-- ===== src/Boot/Booted.antt =====
-- What the start of the kernel sets up.
use rust_baremetal.Prelude.{
  none, ℕ, ◌+◌, ◌-◌, ◌*◌, ◌/◌, ◌%◌, ◌≤◌, ◌<◌, ◌≡◌, ◌∙◌, ◌⊎◌, inr, refl, arith, false, Option, some,
  List, [], ltb, bit_or,
}
use rust_baremetal.Prelude.Word.{word_mod}
use rust_baremetal.Hart.{after_push}
use rust_baremetal.Hart.Nesting.{after_pop, pop_after_push}
use rust_baremetal.Machine.{Machine}
use rust_baremetal.Machine.Outcome.{
  M, Run, done, err, panic, out_of_fuel, deadlock, and_then, unwrapped, within,
}
use rust_baremetal.Machine.Heap.{HeapAllocator}
use rust_baremetal.Machine.Memory.{Mem}
use rust_baremetal.Machine.Frames.{Exhausted, Keeps}
use rust_baremetal.Process.{Process}
use rust_baremetal.Process.Blank.{stack_of}
use rust_baremetal.Virtmemory.Pte.{trampoline}
use rust_baremetal.Virtmemory.PageTable.Map.{Shows}
use rust_baremetal.Virtmemory.PageTable
use rust_baremetal.Virtmemory.Kvm.{start_kvm}
use rust_baremetal.Virtmemory.Pte.Words.{satp_word_sum}
use rust_baremetal.Virtmemory.Kvm.Sections.{
  KernelView, Initialised, no_root, mapped_all, no_table, init-KernelView,
}
use rust_baremetal.Kernel.Init.{kernel_init}
use rust_baremetal.Kernel.Init.Stacks.{Stacked, slots}
use rust_baremetal.Kernel.Init.Rounds.{Stuck, Step, reached, stuck}
use rust_baremetal.Kernel.Init.Whole.{Pushed, initproc-Pushed}
use rust_baremetal.Boot.{Addresses, Start, start_kernel, start_heap, init_trap, main}

-- How the drop of a table ends that is not complete: never with a result.
pub data Dropped {S A : Type 0} : Run S A → Type 0 where
  panicked : Dropped panic
  no_fuel : Dropped out_of_fuel
  locked : Dropped deadlock

-- The word for `satp`: Sv32, and the page of the root.
start_kvm_word : (root : ℕ) → root < word_mod → start_kvm root ≡ 2147483648 + root / 4096
start_kvm_word root h =
    satp_word_sum (record { mode = 1; asid = 0; ppn = root / 4096 }) (omega arith) (omega arith)
      (omega arith)
    ∙ omega arith

-- The kernel's view `g` with the stacks of four slots: below and above the stacks it is `f`, and the
-- page below each stack is a guard.
pub record WithStacks (f g : ℕ → ℕ) : Type 0 where
  pub same : (va : ℕ) → (va < stack_of 3) ⊎ (trampoline ≤ va) → g va ≡ f va
  pub guards : (i : ℕ) → i < 4 → (va : ℕ) → va / 4096 * 4096 ≡ stack_of i - 4096 → g va ≡ 0

module _ (H : HeapAllocator) (a : Addresses) where
  -- How `start_kernel` ends.
  pub data Booted (s : Start H) : Run (Start H) (Unit {0}) → Type 0 where
    booted :
        {root : ℕ} {f : ℕ → ℕ} {u m : Machine H} {tables : ℕ → ℕ}
        → KernelView a.end_text a.trampoline_text f
        → Keeps H s.machine u
        → root % 4096 ≡ 0
        → (stacks : Stacked H root f u 0 tables 4 8 m) → WithStacks f stacks.view
        → Booted s (
            done tt (record s {
              machine = m;
              kvm = some root;
              process_table = slots 0 4 tables;
              satp = 2147483648 + root / 4096;
            }))
    full : Exhausted H s.machine → Booted s panic
    no_stack :
        {root : ℕ} {f : ℕ → ℕ} {u : Machine H}
        → KernelView a.end_text a.trampoline_text f
        → Keeps H s.machine u
        → Stuck H root f u 0
        → Booted s panic
    dropped :
        {root : ℕ} {f : ℕ → ℕ} {last : Machine H} {r : Run (Start H) (Unit {0})}
        → Shows H root f last
        → Keeps H s.machine last
        → Exhausted H last
        → Dropped r
        → Booted s r

  -- The machine when the heap is ready and `KERNEL` is locked.
  abbrev pub heap_ready : (ℕ → ℕ → H.State → Mem → H.State × Mem) → Start H → Start H
  heap_ready init_heap s =
      let (heap, mem) = init_heap a.ekernel (0x84000000 - a.ekernel) s.machine.heap s.machine.mem in
      record s {
        machine = record {
          mem = mem;
          heap = heap;
          hart = after_push (after_pop (after_push s.machine.hart));
        };
        stvec = a.kernelvec;
        sie = bit_or (bit_or s.sie 512) 32;
        kvm = none;
        process_table = [];
        pid = 0;
      }

module _ (H : HeapAllocator) (a : Addresses) (lo : 0x80200000 ≤ a.end_text)
    (hi : a.end_text ≤ 0x84000000) (aligned : a.end_text % 4096 ≡ 0)
    (tramp_aligned : a.trampoline_text % 4096 ≡ 0)
    (tramp_fits : a.trampoline_text + 4096 < word_mod) where
  -- How `Kernel::init` ends in `main`.
  data Ready (m : Machine H) : Run (Machine H) (Option ℕ) → Type 0 where
    ready :
        {root : ℕ} {f : ℕ → ℕ} {u : Machine H}
        → Shows H root f u
        → KernelView a.end_text a.trampoline_text f
        → Keeps H m u
        → Ready m (done (some root) u)
    no_page : Exhausted H m → Ready m panic
    not_ready :
        {root : ℕ} {f : ℕ → ℕ} {last : Machine H} {r : Run (Machine H) (Option ℕ)}
        → Shows H root f last
        → Keeps H m last
        → Exhausted H last
        → Dropped r
        → Ready m r

  drop-Dropped :
      {A : Type 0} (B : Type 0) (root : ℕ) (r : Run (Machine H) A)
      → Dropped (
          unwrapped (
            and_then
              (and_then {A = B} (and_then r (λ _. err)) (λ _. done root))
              (λ kvm. done (some kvm))))
  drop-Dropped B root (done x s) = panicked
  drop-Dropped B root (err s) = panicked
  drop-Dropped B root panic = panicked
  drop-Dropped B root out_of_fuel = no_fuel
  drop-Dropped B root deadlock = locked

  kernel_init-Ready :
      (m : Machine H) → Ready m (unwrapped (kernel_init H a.end_text a.trampoline_text m))
  kernel_init-Ready m =
      from (init-KernelView H a.end_text a.trampoline_text lo hi aligned tramp_aligned tramp_fits m)
    where
      from :
          {r : Run (Machine H) ℕ}
          → Initialised H a.end_text a.trampoline_text lo hi aligned tramp_aligned tramp_fits m r
          → Ready m (unwrapped (and_then r (λ kvm. done (some kvm))))
      from (no_root none_left) = no_page none_left
      from (mapped_all shows view keeps) = ready shows view keeps
      from (no_table {root} {f} {u} shows keeps last_shows last_keeps none_left) =
          not_ready last_shows last_keeps none_left (drop-Dropped _ root (PageTable.free H root u))

  module _ (init_heap : ℕ → ℕ → H.State → Mem → H.State × Mem) (room : H.hi < word_mod)
      (s : Start H) where
    abbrev put_machine : Machine H → Start H
    put_machine m = record s { machine = m }

    Ready-bind :
        {r : Run (Machine H) (Option ℕ)} (k : Option ℕ → M (Start H) (Unit {0}))
        → Ready s.machine r
        → ((root : ℕ) (f : ℕ → ℕ) (u : Machine H)
            → Shows H root f u
            → KernelView a.end_text a.trampoline_text f
            → Keeps H s.machine u
            → Booted H a s (k (some root) (put_machine u)))
        → Booted H a s (and_then (within put_machine r) k)
    Ready-bind k (ready shows view keeps) next = next _ _ _ shows view keeps
    Ready-bind k (no_page none_left) next = full none_left
    Ready-bind k (not_ready shows keeps none_left panicked) next =
        dropped shows keeps none_left panicked
    Ready-bind k (not_ready shows keeps none_left no_fuel) next =
        dropped shows keeps none_left no_fuel
    Ready-bind k (not_ready shows keeps none_left locked) next =
        dropped shows keeps none_left locked

    -- The stacks do not meet the sections.
    Stacked-WithStacks :
        {root : ℕ} {f : ℕ → ℕ} {u m : Machine H} {tables : ℕ → ℕ}
        → KernelView a.end_text a.trampoline_text f
        → (stacks : Stacked H root f u 0 tables 4 8 m) → WithStacks f stacks.view
    Stacked-WithStacks view stacks = record {
      same = λ va out. stacks.elsewhere va (λ k h e. grind arith);
      guards = λ i h va e.
          stacks.elsewhere va (λ k h' e'. omega arith)
          ∙ view.nothing_else va (λ b. omega arith) (λ b. omega arith) (inr (omega arith));
    }

    Slots-bind :
        {root : ℕ} {f : ℕ → ℕ} {u : Machine H} {r : Run (Machine H) (List Process)}
        (put : Machine H → Start H) (k : List Process → M (Start H) (Unit {0}))
        → KernelView a.end_text a.trampoline_text f
        → Keeps H s.machine u
        → Step H root f u 0 (Pushed H root f u 0 [] 4) r
        → ((table : List Process) (m : Machine H)
            → Pushed H root f u 0 [] 4 table m
            → Booted H a s (k table (put m)))
        → Booted H a s (and_then (within put (unwrapped r)) k)
    Slots-bind put k view keeps (reached pushed) next = next _ _ pushed
    Slots-bind put k view keeps (stuck why) next = no_stack view keeps why

    start_kernel-Booted : Booted H a s (start_kernel H init_heap a s)
    unfolding start_kernel
    start_kernel-Booted = Ready-bind _ (kernel_init-Ready s.machine) λ root f u shows view keeps.
        Slots-bind _ _ view keeps (initproc-Pushed H root f u 0 4 (omega arith) room [] refl shows)
          λ table m (tables, is_table, stacks).
            let page = shows.tree.root_page in
            rw (is_table, start_kvm_word root (omega (arith, page.below, room)))
              (booted view keeps page.aligned stacks (Stacked-WithStacks view stacks))

  -- `main` up to `start_kvm`, where `etext` and `_trampoline` are page aligned, `etext` lies in RAM,
  -- `ekernel` at most at its end, and the heap below the top of memory: the heap is given the memory
  -- from `ekernel` to the end of RAM, `kernelvec` becomes the trap vector, external and timer
  -- interrupts are enabled beside those that were, and `KERNEL` is built anew. Then either all
  -- succeeds: the kernel's table maps the sections; four unused slots, numbered from 0, each have an
  -- empty page table and two pages of stack, mapped to read and write for the kernel only; all these
  -- frames and tables were free and no two are the same; the page below each stack is a guard; no
  -- other address translates otherwise than after `Kvm::init`; and `satp` has the mode Sv32 and the
  -- page number of the table's root. Or no
  -- memory was left for the root, for a table of the sections, for a slot's page or for a table of
  -- its stack, and then it does not return.
  pub main-Booted :
      (init_heap : ℕ → ℕ → H.State → Mem → H.State × Mem) (s : Start H)
      → H.hi < word_mod
      → a.ekernel ≤ 0x84000000
      → Booted H a (heap_ready H a init_heap s) (main H init_heap a s)
  unfolding main start_heap init_trap
  main-Booted init_heap s room below =
      let size : ltb 0x84000000 a.ekernel ≡ false = ground (arith, below) in
      rw (size, pop_after_push s.machine.hart)
        (start_kernel-Booted init_heap room (heap_ready H a init_heap s))
