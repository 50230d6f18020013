-- ===== src/Lifecycle/Fork/Outcome.antt =====
-- The ways in which `kfork` ends.
use rust_baremetal.Prelude.{
  ℕ, ◌+◌, ◌<◌, ◌≡◌, ◌⊎◌, inl, inr, refl, Bool, true, false, Option, none, some, All, get_elem?, set,
}
use rust_baremetal.Prelude.Word.{word_mod}
use rust_baremetal.Hart.{Hart, after_push}
use rust_baremetal.Hart.Nesting.{IsHart, Restored, push-IsHart, push_then_pop, pop-push}
use rust_baremetal.Machine.Outcome.{Run, done, panic}
use rust_baremetal.Process.{Process, Uvm}
use rust_baremetal.Process.Locks.{IsUnlocked}
use rust_baremetal.Kernel.{Kernel, allocproc}
use rust_baremetal.Kernel.Alloc.{
  FirstUnused, InUse, taken, Allocproc, no_slot, slot, allocproc-Allocproc,
}
use rust_baremetal.Lifecycle.Fork.{
  ChildSpace, complete, incomplete, broken, Supplies, kfork, fork_block,
}
use rust_baremetal.Kernel.Alloc
use mathlib.Core.Bool.{false≢true}
use rust_baremetal.Lifecycle.Fork.Slot.{
  forked_child, forked_parent, slot-no_space, slot-forked, slot-panic,
}

-- How `kfork` ends, for the process `p` in slot `self`.
pub data Kfork (forkret : ℕ) (supplies : Supplies) (self : ℕ) (p : Process) (k : Kernel) (h : Hart)
    : Run Hart (Option ℕ × Kernel) → Type 0 where
  no_room :
      {h' : Hart}
      → All InUse k.process_table
      → Restored h h'
      → Kfork forkret supplies self p k h (done (none, k) h')
  no_space :
      {i : ℕ} {q : Process} {h' : Hart}
      → FirstUnused k.process_table i q
      → supplies.first_box ≡ true
      → supplies.second_box ≡ true
      → supplies.space ≡ incomplete
      → Restored (after_push h) h'
      → Kfork forkret supplies self p k h (
          done
            (
              none,
              record {
                process_table =
                    set k.process_table i
                      (record (taken forkret k.pid q) { trapframe = p.trapframe });
                pid = k.pid + 1;
              },
            )
            h')
  forked :
      {i : ℕ} {q : Process} {uvm : Uvm} {h' : Hart}
      → FirstUnused k.process_table i q
      → supplies.first_box ≡ true
      → supplies.second_box ≡ true
      → supplies.space ≡ complete uvm
      → Restored h h'
      → Kfork forkret supplies self p k h (
          done
            (
              some k.pid,
              record {
                process_table =
                    set
                      (set k.process_table i (forked_child forkret k.pid uvm p q))
                      self
                      (forked_parent k.pid p);
                pid = k.pid + 1;
              },
            )
            h')
  no_memory :
      {i : ℕ} {q : Process}
      → FirstUnused k.process_table i q
      → ((supplies.first_box ≡ false) ⊎ (supplies.second_box ≡ false)) ⊎ (supplies.space ≡ broken)
      → Kfork forkret supplies self p k h panic

-- The rest of the block, from what `allocproc` has returned.
module _ (forkret : ℕ) (self : ℕ) (p : Process) (k : Kernel) (h : Hart)
    (at : get_elem? k.process_table self ≡ some p) (in_use : InUse p) (w : IsHart h) where
  kfork-panic :
      (supplies : Supplies)
      → allocproc forkret supplies.first_box k (after_push h) ≡ panic
      → kfork forkret supplies self k h ≡ panic
  unfolding kfork fork_block
  kfork-panic supplies ran = rw ran refl

  -- Behind `allocproc` with a slot.
  kfork_slot-cases :
      (first_box second_box : Bool) (space : ChildSpace) {i : ℕ} {q : Process}
      → FirstUnused k.process_table i q
      → first_box ≡ true
      → allocproc forkret first_box k (after_push h)
        ≡ done
            (
              some i,
              record {
                process_table = set k.process_table i (taken forkret k.pid q);
                pid = k.pid + 1;
              },
            )
            (after_push (after_push h))
      → Kfork forkret
          (record { first_box = first_box; second_box = second_box; space = space })
          self
          p
          k
          h
          (kfork forkret
            (record { first_box = first_box; second_box = second_box; space = space })
            self
            k
            h)
  unfolding kfork fork_block
  kfork_slot-cases first_box false space first boxes ran =
      let supplies : Supplies = record {
        first_box = first_box;
        second_box = false;
        space = space;
      } in
      rw ran (
        rw
          (slot-panic forkret self p k first at in_use supplies (after_push (after_push h))
            (inl refl))
          (no_memory first (inl (inr refl))))
  kfork_slot-cases first_box true broken first boxes ran =
      let supplies : Supplies = record {
        first_box = first_box;
        second_box = true;
        space = broken;
      } in
      rw ran (
        rw
          (slot-panic forkret self p k first at in_use supplies (after_push (after_push h))
            (inr refl))
          (no_memory first (inr refl)))
  kfork_slot-cases true true incomplete first boxes ran =
      let h1 = after_push h in
      let (h', popped, same) = push_then_pop h1 (push-IsHart h w) in
      rw ran (
        rw (slot-no_space forkret self p k first at in_use (after_push h1))
          (rw popped (no_space first refl refl refl same)))
  kfork_slot-cases true true (complete uvm) first boxes ran =
      let h1 = after_push h in
      let (h2, forks, same2) =
        slot-forked forkret self p k first at in_use uvm h1 (push-IsHart h w) in
      let (h', popped, same) = pop-push h h2 w same2 in
      rw ran (rw forks (rw popped (forked first refl refl refl same)))
  kfork_slot-cases false true _ first boxes ran = absurd (false≢true boxes)

  kfork_cases :
      (supplies : Supplies) {r : Run Hart (Option ℕ × Kernel)}
      → allocproc forkret supplies.first_box k (after_push h) ≡ r
      → Allocproc forkret supplies.first_box k (after_push h) r
      → Kfork forkret supplies self p k h (kfork forkret supplies self k h)
  unfolding kfork fork_block
  kfork_cases supplies ran (no_slot all) =
      let (h', popped, same) = push_then_pop h w in rw ran (rw popped (no_room all same))
  kfork_cases supplies ran (Alloc.no_memory first fails) =
      rw (kfork-panic supplies ran) (no_memory first (inl (inl fails)))
  kfork_cases supplies ran (slot first boxes) =
      kfork_slot-cases supplies.first_box supplies.second_box supplies.space first boxes ran

-- With no lock held and a process id left: if every slot is in use `kfork` fails and changes
-- nothing. Otherwise it takes the first unused slot with the next id; with a page for each box and
-- the address space for the child, the child has the parent's registers but 0 in `a0`, is runnable
-- with its lock free and has the caller as its parent, and the caller gets the id in `a0`; no
-- other slot changes. If only `init_proc` fails on the address space it fails, and the slot stays
-- in use with its lock held, and interrupts stay off by one level more. It panics only with an
-- unused slot, where no page is left for the box of the slot's trapframe or for the copy of the
-- parent's, or where the clone of the address space or the drop of one panics.
pub kfork-Kfork :
    (forkret : ℕ) (supplies : Supplies) (self : ℕ) (p : Process) (k : Kernel) (h : Hart)
    → get_elem? k.process_table self ≡ some p
    → InUse p
    → All IsUnlocked k.process_table
    → k.pid + 1 < word_mod
    → IsHart h
    → Kfork forkret supplies self p k h (kfork forkret supplies self k h)
kfork-Kfork forkret supplies self p k h at in_use unlocked fits w =
    kfork_cases forkret self p k h at in_use w supplies refl
      (allocproc-Allocproc forkret supplies.first_box k (after_push h) unlocked fits)
