-- ===== src/Scheduler.antt =====
-- `scheduler` of kernel/src/process.rs: the choice of the next process, and what a round does before
-- and behind the context switch.
pub mod Fair
pub mod Order
pub mod Pick
mod Tests
use rust_baremetal.Prelude.{
  ℕ, zero, suc, ◌+◌, Option, none, some, List, [], ◌∷◌, length, get_elem?, set, leb, if◌then◌else◌,
}
use rust_baremetal.Hart.{Hart, after_push, pop_interrupt_off, interrupt_on, interrupt_off}
use rust_baremetal.Machine.{add_usize}
use rust_baremetal.Machine.Outcome.{M, done, panic, pure, ◌>>=◌, ◌>>◌, expect}
use rust_baremetal.Process.{Process, running, is_runnable, lock_manual, unlock_manual}

-- `quants` of a slot; no index of `order` is out of range.
pub quants_at : List Process → ℕ → ℕ
quants_at [] i = 0
quants_at (p ∷ ps) zero = p.quants
quants_at (p ∷ ps) (suc i) = quants_at ps i

-- `sort_by_key`, which is stable.
pub insert : (ℕ → ℕ) → ℕ → List ℕ → List ℕ
insert key x [] = x ∷ []
insert key x (y ∷ ys) =
    let rest = insert key x ys in if leb (key x) (key y) then x ∷ y ∷ ys else y ∷ rest

pub sort_by_key : (ℕ → ℕ) → List ℕ → List ℕ
unfolding insert
sort_by_key key [] = []
sort_by_key key (x ∷ xs) = insert key x (sort_by_key key xs)

-- `n` indices from `i` on.
pub range : ℕ → ℕ → List ℕ
range i zero = []
range i (suc n) = i ∷ range (i + 1) n

pub order : List Process → List ℕ
unfolding quants_at sort_by_key range
order table = sort_by_key (quants_at table) (range 0 (length table))

-- The `for` over the order.
pub scan : List ℕ → List Process → M Hart (Option ℕ × List Process)
scan [] table = pure (none, table)
scan (i ∷ is) table = do
  proc ← expect (get_elem? table i)
  proc ← lock_manual proc
  let next = (do proc ← unlock_manual proc; scan is (set table i proc))
  if is_runnable proc.state
      then pure (some i, set table i (record proc { state = running }))
      else next

-- The drop of the guard of the kernel's lock.
abbrev pub dropped : Option Hart → M Hart (Unit {0})
dropped none = λ h. panic
dropped (some h') = λ h. done tt h'

-- The block under the kernel's lock: the index that is found, and the table.
pub pick : List Process → M Hart (Option ℕ × List Process)
unfolding order scan
pick table = do
  _ ← λ h. done tt (after_push h)
  found ← scan (order table) table
  _ ← λ h. dropped (pop_interrupt_off h) h
  pure found

-- What a round does with the slot that is found, before it switches to it.
pub start : ℕ → List Process → M Hart (Option ℕ × List Process)
start i table = do
  found ← expect (get_elem? table i)
  quants ← add_usize found.quants 1
  pure (some i, set table i (record found { quants = quants }))

-- A round of `scheduler` up to the switch, or to the `wfi` where no process is found. The slot that is
-- found becomes the hart's `current`.
pub before_switch : List Process → M Hart (Option ℕ × List Process)
unfolding pick start
before_switch table = do
  _ ← λ h. done tt (interrupt_off (interrupt_on h))
  (found, table) ← pick table
  elim found [ none ↦ (λ h. done (none, table) (interrupt_on h)) | some i ↦ start i table ]

-- The rest of the round, once the process `i` has switched back.
abbrev pub after_switch : ℕ → List Process → M Hart (List Process)
after_switch i table = do
  found ← expect (get_elem? table i)
  found ← unlock_manual found
  pure (set table i found)
