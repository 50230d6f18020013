-- ===== src/Hart/Guard.antt =====
-- A block under a guard of `IntMutex` whose mutex is free: interrupts are pushed off before it, and
-- popped when the guard is dropped.
use rust_baremetal.Prelude.{◌≡◌, refl, Option, none, some}
use rust_baremetal.Hart.{Hart, after_push, pop_interrupt_off}
use rust_baremetal.Hart.Nesting.{IsHart, Restored, pop-push}
use rust_baremetal.Machine.Outcome.{M, done, panic, ◌>>=◌}

-- The drop of a guard.
abbrev pub dropped : Option Hart → M Hart (Unit {0})
dropped none = λ h. panic
dropped (some h') = λ h. done tt h'

abbrev pub guarded : {A : Type 0} → M Hart A → M Hart A
guarded block = do
  _ ← λ h. done tt (after_push h)
  a ← block
  _ ← λ h. dropped (pop_interrupt_off h) h
  λ h. done a h

-- A block that returns with the interrupt state it found does so under a guard, too.
pub guarded-Restored :
    {A : Type 0} (block : M Hart A) {a : A} (h : Hart) {g : Hart}
    → IsHart h
    → block (after_push h) ≡ done a g
    → Restored (after_push h) g
    → (h' : Hart) × (guarded block h ≡ done a h') × Restored h h'
guarded-Restored block h {g} w ran back =
    let (h', popped, same) = pop-push h g w back in (h', rw (ran, popped) refl, same)
