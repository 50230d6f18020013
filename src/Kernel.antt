-- ===== src/Kernel.antt =====
-- `Kernel` of kernel/src/kernel.rs: the process table and the next process id.
pub mod Alloc
pub mod Init
pub mod Pids
mod Tests
pub mod Wakeup
use rust_baremetal.Prelude.{
  ℕ, zero, suc, ◌+◌, ◌*◌, Bool, true, false, ◌&&◌, ◌||◌, Option, none, some, List, [], ◌∷◌, opt_eq,
  if◌then◌else◌,
}
use rust_baremetal.Hart.{Hart}
use rust_baremetal.Machine.{add_usize}
use rust_baremetal.Machine.Outcome.{M, Run, done, pure, ◌>>=◌, ◌>>◌}
use rust_baremetal.Process.{
  Process, used, runnable, is_unused, is_sleeping, lock_manual, unlock_manual, zero_context,
  default_trapframe, kernel_stack_pages, new_box,
}
use rust_baremetal.Virtmemory.Pte.{page_size}

pub record Kernel : Type 0 where
  pub process_table : List Process
  pub pid : ℕ

-- One round of the loop of `wakeup`.
pub wakeup_one : Option ℕ → Process → M Hart Process
wakeup_one channel p = do
  p ← lock_manual p
  let p =
      if is_sleeping p.state && opt_eq p.sleep_channel channel
      then record p { state = runnable }
      else p
  unlock_manual p

pub wakeup : Option ℕ → List Process → M Hart (List Process)
unfolding wakeup_one
wakeup channel [] = pure []
wakeup channel (p ∷ ps) = do q ← wakeup_one channel p; qs ← wakeup channel ps; pure (q ∷ qs)

-- The loop of `reparent`, and its `any_child`.
pub adopt : Option ℕ → List Process → List Process
adopt pid [] = []
adopt pid (p ∷ ps) =
    (if opt_eq p.parent pid then record p { parent = some 0 } else p) ∷ adopt pid ps

unfoldable pub any_child : Option ℕ → List Process → Bool
any_child pid [] = false
any_child pid (p ∷ ps) = opt_eq p.parent pid || any_child pid ps

pub reparent : Option ℕ → List Process → M Hart (List Process)
unfolding adopt any_child
reparent pid table =
    let adopted = adopt pid table in
    if any_child pid table then wakeup (some 0) adopted else pure adopted

-- What `allocproc` does with the slot that it takes; `boxed` says whether a page is left for the
-- trapframe.
pub take_slot : (forkret : ℕ) → (boxed : Bool) → ℕ → Process → M Hart Process
take_slot forkret boxed pid p = do
  let p = record p { pid = some pid; state = used }
  new_box boxed
  let p = record p { trapframe = default_trapframe }
  p ← lock_manual p
  let context = record zero_context { ra = forkret; sp = p.stack + kernel_stack_pages * page_size }
  pure (record p { context = context })

-- The index of the slot that was taken, the next process id, and the table.
pub record Allocated : Type 0 where
  pub slot : Option ℕ
  pub next_pid : ℕ
  pub table : List Process

-- The loop of `allocproc`, at index `i`; `forkret` is the address of that function.
pub alloc_from : (forkret : ℕ) → (boxed : Bool) → ℕ → ℕ → List Process → M Hart Allocated
unfolding take_slot
alloc_from forkret boxed pid i [] = pure (record { slot = none; next_pid = pid; table = [] })
alloc_from forkret boxed pid i (p ∷ ps) =
    let rest = (do
      r ← alloc_from forkret boxed pid (i + 1) ps
      pure (record r { table = p ∷ r.table })) in
    if is_unused p.state
    then (do
      next_pid ← add_usize pid 1
      q ← take_slot forkret boxed pid p
      pure (record { slot = some i; next_pid = next_pid; table = q ∷ ps }))
    else rest

pub allocproc : (forkret : ℕ) → (boxed : Bool) → Kernel → M Hart (Option ℕ × Kernel)
unfolding alloc_from
allocproc forkret boxed k = do
  r ← alloc_from forkret boxed k.pid 0 k.process_table
  pure (r.slot, record { process_table = r.table; pid = r.next_pid })
