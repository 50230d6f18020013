-- ===== src/Hart/Tests.antt =====
-- Instances of the theorems about nested locks.
use rust_baremetal.Prelude.{arith, false, [], ◌∷◌}
use rust_baremetal.Hart.{Hart}
use rust_baremetal.Hart.Nesting.{push, pop, done, wrap, Nested, run-Balanced}

abbrev enabled : Hart
enabled = record { sstatus = 0x8002; interrupt_off_stack = 0; interrupt_prev_state = false }

run-Balanced_example :
    Nested {ops = push ∷ push ∷ pop ∷ push ∷ pop ∷ pop ∷ []} enabled
      (wrap (wrap done (wrap done done)) done)
run-Balanced_example =
    run-Balanced enabled (wrap (wrap done (wrap done done)) done)
      (record { word = omega arith; held_off = λ h. absurd (omega arith) }) (omega arith)
