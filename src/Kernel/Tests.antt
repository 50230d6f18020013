-- ===== src/Kernel/Tests.antt =====
-- Instances of the theorems on a process table of three slots.
use rust_baremetal.Prelude.{◌≡◌, ◌≢◌, refl, arith, true, false, some, List, [], ◌∷◌, map, All}
use rust_baremetal.Hart.{Hart}
use rust_baremetal.Hart.Nesting.{IsHart, Restored}
use rust_baremetal.Machine.Outcome.{done}
use rust_baremetal.Process.{Process, new, sleeping, running}
use rust_baremetal.Kernel.{Kernel, wakeup, any_child, reparent, allocproc}
use rust_baremetal.Kernel.Wakeup.{woken, wakeup-map, reparented, reparent-map}
use rust_baremetal.Kernel.Alloc.{Allocproc, allocproc-Allocproc}
use rust_baremetal.Kernel.Pids.{HasPids, Numbered, allocproc-HasPids}

abbrev idle : Hart
idle = record { sstatus = 2; interrupt_off_stack = 0; interrupt_prev_state = false }

abbrev init : Process
unfolding new
init = record (new 0 (record { begin = 0; size = 0; root = 0x80300000 })) {
  pid = some 0;
  state = sleeping;
  sleep_channel = some 0;
}

abbrev shell : Process
unfolding new
shell = record (new 1 (record { begin = 0; size = 0; root = 0x80301000 })) {
  pid = some 1;
  state = running;
  parent = some 0;
}

abbrev child : Process
unfolding new
child = record (new 2 (record { begin = 0; size = 0; root = 0x80302000 })) {
  pid = some 2;
  state = running;
  parent = some 1;
}

abbrev spare : Process
unfolding new
spare = new 3 (record { begin = 0; size = 0; root = 0x80303000 })

abbrev processes : List Process
processes = init ∷ shell ∷ child ∷ spare ∷ []

idle-IsHart : IsHart idle
idle-IsHart = record { word = omega arith; held_off = λ h. absurd (omega (arith, h)) }

processes-free : All (λ p. p.lock ≡ false) processes
unfolding init shell child spare
processes-free = (refl, (refl, (refl, (refl, tt))))

wakeup-map_example :
    (h' : Hart) × (wakeup (some 0) processes idle ≡ done (map (woken (some 0)) processes) h')
    × Restored idle h'
wakeup-map_example = wakeup-map (some 0) processes idle processes-free idle-IsHart

reparent-map_example :
    (h' : Hart) × (reparent (some 1) processes idle
      ≡ done (map (reparented (some 1) (any_child (some 1) processes)) processes) h')
    × Restored idle h'
    × All
        (λ p. p.parent ≢ some 1)
        (map (reparented (some 1) (any_child (some 1) processes)) processes)
reparent-map_example = reparent-map (some 1) processes idle processes-free idle-IsHart (λ e. cc)

abbrev kernel : Kernel
kernel = record { process_table = processes; pid = 3 }

allocproc-Allocproc_example :
    Allocproc 0x80201234 true kernel idle (allocproc 0x80201234 true kernel idle)
allocproc-Allocproc_example =
    allocproc-Allocproc 0x80201234 true kernel idle processes-free (omega arith)

kernel-HasPids : HasPids kernel
unfolding init shell child spare
kernel-HasPids = record {
  below = (
    λ n e. ground arith,
    (λ n e. ground arith, (λ n e. ground arith, (λ n e. ground arith, tt))),
  );
  distinct = (
    (λ n e d. ground arith, (λ n e d. ground arith, (λ n e d. ground arith, tt))),
    ((λ n e d. ground arith, (λ n e d. ground arith, tt)), ((λ n e d. ground arith, tt), (tt, tt))),
  );
}

allocproc-HasPids_example : Numbered true (allocproc 0x80201234 true kernel idle)
allocproc-HasPids_example =
    allocproc-HasPids 0x80201234 true kernel idle processes-free (omega arith) kernel-HasPids
