-- ===== src/Scheduler/Tests.antt =====
-- A table of four slots, of which two could run.
use rust_baremetal.Prelude.{
  ap, Option, ℕ, ◌+◌, ◌≤◌, ◌<◌, ◌≢◌, ◌≡◌, refl, arith, true, false, some, List, [], ◌∷◌, All,
}
use rust_baremetal.Hart.{Hart}
use rust_baremetal.Hart.Nesting.{IsHart}
use rust_baremetal.Process.{Process, new, sleeping, runnable}
use rust_baremetal.Scheduler.{pick}
use rust_baremetal.Scheduler.Pick.{Picked, pick-Picked}
use rust_baremetal.Scheduler.Fair.{
  lead, Ready, Found, PassedOver, none_yet, again, Later-refl, before_switch-Found, PassedOver-lead,
}
use rust_baremetal.Prelude.Word.{word_mod}

abbrev slot : ℕ → Process
unfolding new
slot n = new n (record { begin = 0; size = 0; root = 0x80300000 })

abbrev waiting : List Process
waiting =
    record (slot 0) { pid = some 0; state = sleeping; quants = 1 }
    ∷ record (slot 1) { pid = some 1; state = runnable; quants = 7 }
    ∷ record (slot 2) { pid = some 2; state = runnable; quants = 3 }
    ∷ slot 3
    ∷ []

abbrev idle_hart : Hart
idle_hart = record { sstatus = 0; interrupt_off_stack = 0; interrupt_prev_state = true }

idle_hart-IsHart : IsHart idle_hart
idle_hart-IsHart = record { word = omega arith; held_off = λ h. refl }

waiting-free : All (λ p. p.lock ≡ false) waiting
unfolding slot
waiting-free = (refl, (refl, (refl, (refl, tt))))

pick-Picked_example : Picked waiting idle_hart (pick waiting idle_hart)
pick-Picked_example = pick-Picked waiting idle_hart waiting-free idle_hart-IsHart

some_same : {p q : Process} → some p ≡ some q → p ≡ q
some_same e = cc

waiting-Ready : Ready 1 7 waiting
waiting-Ready = (record (slot 1) { pid = some 1; state = runnable; quants = 7 }, refl, refl, refl)

waiting-small : All (λ p. p.quants + 1 < word_mod) waiting
unfolding slot
waiting-small = (omega arith, (omega arith, (omega arith, (omega arith, tt))))

-- Slot 2 has run less.
not_one : (found : Found waiting idle_hart) → ◌≢◌ {A = Option ℕ} (some found.slot) (some 1)
not_one found e =
    let slot_one : found.slot ≡ 1 = cc in
    let own : record (slot 1) { pid = some 1; state = runnable; quants = 7 } ≡ found.process =
      some_same (rw slot_one at found.at) in
    let quants : 7 ≡ found.process.quants = ap (λ p. p.quants) own in
    grind (
      arith,
      found.least 2 (record (slot 2) { pid = some 2; state = runnable; quants = 3 }) refl refl,
    )

waiting-PassedOver : PassedOver 1 7 1 waiting
waiting-PassedOver =
    let found : Found waiting idle_hart =
      before_switch-Found 1 7 waiting idle_hart waiting-Ready waiting-free idle_hart-IsHart
        waiting-small in
    again waiting-free idle_hart-IsHart waiting-Ready found.run (not_one found) (Later-refl _)
      none_yet

PassedOver-lead_example : 1 ≤ lead 7 waiting
PassedOver-lead_example = PassedOver-lead 1 7 1 waiting waiting-PassedOver
