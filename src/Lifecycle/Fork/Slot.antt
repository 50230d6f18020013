-- ===== src/Lifecycle/Fork/Slot.antt =====
-- What `kfork` does on the slot that it has taken.
use mathlib.Core.Bool.{false≢true}
use rust_baremetal.Prelude.{
  ℕ, zero, suc, ◌+◌, ◌≡◌, ◌∙◌, refl, sym, ap, none, some, List, [], ◌∷◌, get_elem?, set, true, ◌⊎◌,
  inl, inr, Bool-cases, false,
}
use rust_baremetal.Hart.{Hart, after_push}
use rust_baremetal.Hart.Nesting.{IsHart, Restored, Restored-IsHart, Restored-trans, push_then_pop}
use rust_baremetal.Machine.Outcome.{done, panic}
use rust_baremetal.Process.{Process, Uvm, runnable, is_unused}
use rust_baremetal.Process.Locks.{lock_manual_free, unlock_manual_held}
use rust_baremetal.Kernel.{Kernel}
use rust_baremetal.Kernel.Alloc.{FirstUnused, here, later, InUse, taken}
use rust_baremetal.Lifecycle.Fork.{Supplies, complete, incomplete, broken, fork_child, fork_slot}

-- The slot of the child: a copy of the registers with 0 in `a0`, and the given address space.
abbrev pub forked_child : ℕ → ℕ → Uvm → Process → Process → Process
forked_child forkret pid uvm p q = record (taken forkret pid q) {
  pagetable = uvm;
  trapframe = record p.trapframe { a0 = 0 };
  parent = p.pid;
  state = runnable;
  lock = false;
}

abbrev pub forked_parent : ℕ → Process → Process
forked_parent pid p = record p { trapframe = record p.trapframe { a0 = pid } }

set-set : (t : List Process) (i : ℕ) (v w : Process) → set (set t i v) i w ≡ set t i w
set-set [] i v w = refl
set-set (q ∷ t) zero v w = refl
set-set (q ∷ t) (suc i) v w = ap (λ ps. q ∷ ps) (set-set t i v w)

-- The slot that is taken, and the slots in use, after the taking.
taken_slot :
    {t : List Process} {i : ℕ} {q : Process} (v : Process)
    → FirstUnused t i q
    → get_elem? (set t i v) i ≡ some v
taken_slot v (here e) = refl
taken_slot v (later e first) = taken_slot v first

pub used_slot :
    {t : List Process} {i : ℕ} {q : Process} (v : Process) (self : ℕ) {p : Process}
    → FirstUnused t i q
    → get_elem? t self ≡ some p
    → InUse p
    → get_elem? (set t i v) self ≡ some p
used_slot v zero {p} (here {p = q} e) at in_use =
    let same : q ≡ p = cc in
    absurd (false≢true (sym in_use ∙ (ap (λ x. is_unused x.state) (sym same) ∙ e)))
used_slot v (suc self) (here e) at in_use = at
used_slot v zero (later e first) at in_use = at
used_slot v (suc self) (later e first) at in_use = used_slot v self first at in_use

-- The child's lock is released, taken and released again.
fork_child-run :
    (uvm : Uvm) (self i n : ℕ) (p child : Process) (k : Kernel) (h : Hart)
    → child.pid ≡ some n
    → IsHart h
    → (h' : Hart) × (fork_child uvm self i p child k (after_push h)
        ≡ done
            (
              some n,
              record k {
                process_table =
                    set
                      (set k.process_table i (record child {
                        pagetable = uvm;
                        trapframe = record child.trapframe { a0 = 0 };
                        parent = p.pid;
                        state = runnable;
                        lock = false;
                      }))
                      self
                      (forked_parent n p);
              },
            )
            h')
      × Restored h h'
unfolding fork_child
fork_child-run uvm self i n p child k h has_pid w =
    let (h1, popped1, same1) = push_then_pop h w in
    let (h2, popped2, same2) = push_then_pop h1 (Restored-IsHart w same1) in
    let c1 : Process = record child {
      pid = some n;
      pagetable = uvm;
      trapframe = record child.trapframe { a0 = 0 };
    } in
    let c2 : Process = record c1 { lock = false; parent = p.pid } in
    let c3 : Process = record c2 { lock = true; state = runnable } in
    (
      h2,
      rw has_pid (
          rw (unlock_manual_held c1 (after_push h) popped1) (
            rw (lock_manual_free c2 h1 refl)
              (rw (unlock_manual_held c3 (after_push h1) popped2) refl))),
      Restored-trans same1 same2,
    )

-- The block on the slot that `allocproc` took, with an address space and without one.
module _ (forkret self : ℕ) (p : Process) (k : Kernel) {i : ℕ} {q : Process}
    (first : FirstUnused k.process_table i q) (at : get_elem? k.process_table self ≡ some p)
    (in_use : InUse p) where
  abbrev got : Process
  got = taken forkret k.pid q

  abbrev allocated : Kernel
  allocated = record { process_table = set k.process_table i got; pid = k.pid + 1 }

  -- Without memory for the trapframe or the address space.
  pub slot-panic :
      (supplies : Supplies) (g : Hart)
      → (supplies.second_box ≡ false) ⊎ (supplies.space ≡ broken)
      → fork_slot supplies self i allocated g ≡ panic
  unfolding fork_slot
  slot-panic supplies g (inl fails) =
      rw (used_slot got self first at in_use) (rw (taken_slot got first) (rw fails refl))
  slot-panic supplies g (inr fails) = elim (Bool-cases supplies.second_box) [
    | inl boxes ↦
        rw (used_slot got self first at in_use) (rw (taken_slot got first) (rw (boxes, fails) refl))
    | inr no_box ↦
        rw (used_slot got self first at in_use) (rw (taken_slot got first) (rw no_box refl))
  ]

  pub slot-no_space :
      (g : Hart)
      → fork_slot
          (record { first_box = true; second_box = true; space = incomplete })
          self
          i
          allocated
          g
        ≡ done
            (
              none,
              record {
                process_table = set k.process_table i (record got { trapframe = p.trapframe });
                pid = k.pid + 1;
              },
            )
            g
  unfolding fork_slot
  slot-no_space g = rw (used_slot got self first at in_use) (
      rw (taken_slot got first)
        (rw (set-set k.process_table i got (record got { trapframe = p.trapframe })) refl))

  pub slot-forked :
      (uvm : Uvm) (h : Hart)
      → IsHart h
      → (h' : Hart) × (fork_slot
            (record { first_box = true; second_box = true; space = complete uvm })
            self
            i
            allocated
            (after_push h)
          ≡ done
              (
                some k.pid,
                record {
                  process_table =
                      set
                        (set k.process_table i (forked_child forkret k.pid uvm p q))
                        self
                        (forked_parent k.pid p);
                  pid = k.pid + 1;
                },
              )
              h')
        × Restored h h'
  unfolding fork_slot
  slot-forked uvm h w =
      let (h', ran, same) =
        fork_child-run uvm self i k.pid p (record got { trapframe = p.trapframe }) allocated h refl
          w in
      (
        h',
        rw (used_slot got self first at in_use) (
            rw (taken_slot got first) (
              ran
              ∙ ap
                  (λ t.
                    done
                      (
                        some k.pid,
                        record {
                          process_table = set t self (forked_parent k.pid p);
                          pid = k.pid + 1;
                        },
                      )
                      h')
                  (set-set k.process_table i got (forked_child forkret k.pid uvm p q)))),
        same,
      )
