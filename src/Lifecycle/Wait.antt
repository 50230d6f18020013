-- ===== src/Lifecycle/Wait.antt =====
-- `kwait`: a zombie child is reaped, or the process sleeps until a child ends.
use rust_baremetal.Prelude.{
  ℕ, zero, suc, arith, ◌⊎◌, ◌==◌, ◌||◌, ◌≡◌, ◌≢◌, ◌∙◌, inl, inr, refl, sym, ap, Bool, true, false,
  Option, none, some, List, [], ◌∷◌, All, opt_eq, opt_eq_iff, get_elem?, set, Bool-cases,
  Option-cases,
}
use rust_baremetal.Hart.{Hart, after_push, pop_interrupt_off}
use rust_baremetal.Hart.Nesting.{
  IsHart, Restored, Restored-IsHart, Restored-trans, push-IsHart, push_then_pop, pop-push,
}
use rust_baremetal.Machine.Outcome.{Run, done, panic}
use rust_baremetal.Process.{Process, Uvm, sleeping, is_zombie}
use rust_baremetal.Process.Blank.{given_back}
use rust_baremetal.Process.Locks.{IsUnlocked, lock_manual_free}
use rust_baremetal.Kernel.{any_child}
use rust_baremetal.Lifecycle.{
  Kids, scan_kids, park, Waited, reaped, no_kids, sleeps, wait_block, kwait, sched, report,
}
use rust_baremetal.Lifecycle.Exit.{sched_ready, All-get}
use rust_baremetal.Lifecycle.Scan.{
  Alive, Scanned, all_alive, one_dead, no_memory, scan_kids-Scanned,
}

-- The slot of a process that waits: it sleeps on the channel of its own id, with its lock held.
abbrev pub asleep : Process → Process
asleep q = record q { lock = true; sleep_channel = q.pid; state = sleeping }

park_here :
    (pid : Option ℕ) (q : Process) (t : List Process) (h : Hart)
    → q.pid ≡ pid
    → IsUnlocked q
    → park pid (q ∷ t) h ≡ done (asleep q ∷ t) (after_push h)
unfolding park
park_here pid q t h same unlocked =
    rw ((opt_eq_iff q.pid pid).1 same, lock_manual_free q h unlocked) (rw same refl)

-- `park` finds a slot with the id, since there is one.
park_lem :
    (pid : Option ℕ) (t : List Process) (self : ℕ) (p : Process) (h : Hart)
    → get_elem? t self ≡ some p
    → p.pid ≡ pid
    → All IsUnlocked t
    → (k : ℕ) × (q : Process) × (get_elem? t k ≡ some q)
      × (q.pid ≡ pid)
      × (park pid t h ≡ done (set t k (asleep q)) (after_push h))
unfolding park
park_lem pid [] self p h at own unlocked = cc
park_lem pid (q ∷ t) zero p h at own unlocked =
    let one : q ≡ p = cc in
    let same : q.pid ≡ pid = ap (λ x. x.pid) one ∙ own in
    (0, q, refl, same, park_here pid q t h same unlocked.0)
park_lem pid (q ∷ t) (suc i) p h at own unlocked = elim (Bool-cases (opt_eq q.pid pid)) [
  | inl here ↦
      let same = (opt_eq_iff q.pid pid).0 here in
      (0, q, refl, same, park_here pid q t h same unlocked.0)
  | inr other ↦
      let (k, r, found, same, ran) = park_lem pid t i p h at own unlocked.1 in
      (suc k, r, found, same, rw (other, ran) refl)
]

-- How a round of `kwait` ends, for the process `p`.
pub data Kwait (fresh : Option Uvm) (status_addr : ℕ) (copied : Bool) (p : Process)
    (t : List Process) (h : Hart) : Run Hart (Waited × List Process) → Type 0 where
  child_reaped :
      (i : ℕ) {q : Process} {n : ℕ} {uvm : Uvm} {h' : Hart}
      → get_elem? t i ≡ some q
      → q.parent ≡ p.pid
      → is_zombie q.state ≡ true
      → q.pid ≡ some n
      → fresh ≡ some uvm
      → (status_addr ≡ 0) ⊎ (copied ≡ true)
      → Restored h h'
      → Kwait fresh status_addr copied p t h
          (done (reaped n q.xstatus, set t i (given_back q uvm)) h')
  cannot_free :
      (i : ℕ) {q : Process}
      → get_elem? t i ≡ some q
      → q.parent ≡ p.pid
      → is_zombie q.state ≡ true
      → fresh ≡ none
      → Kwait fresh status_addr copied p t h panic
  bad_address :
      (i : ℕ) {q : Process}
      → get_elem? t i ≡ some q
      → q.parent ≡ p.pid
      → is_zombie q.state ≡ true
      → status_addr ≢ 0
      → copied ≡ false
      → Kwait fresh status_addr copied p t h panic
  childless :
      {h' : Hart}
      → any_child p.pid t ≡ false
      → Restored h h'
      → Kwait fresh status_addr copied p t h (done (no_kids, t) h')
  goes_to_sleep :
      (k : ℕ) {q : Process} {h' : Hart}
      → any_child p.pid t ≡ true
      → All (Alive p.pid) t
      → get_elem? t k ≡ some q
      → q.pid ≡ p.pid
      → Restored (after_push h) h'
      → Kwait fresh status_addr copied p t h (done (sleeps, set t k (asleep q)) h')

-- The block ends in three ways.
module _ (fresh : Option Uvm) (status_addr : ℕ) (copied : Bool) (self : ℕ) (p : Process)
    (t t' : List Process) (h g : Hart) {h' : Hart} (at : get_elem? t self ≡ some p) where
  ends_reaped :
      (any : Bool) (n xstatus : ℕ)
      → scan_kids fresh p.pid t (after_push h)
        ≡ done (record { has_kids = any; zombie_pid = some n; zombie_xstatus = xstatus }, t') g
      → pop_interrupt_off g ≡ some h'
      → (status_addr ≡ 0) ⊎ (copied ≡ true)
      → kwait fresh status_addr copied self t h ≡ done (reaped n xstatus, t') h'
  unfolding kwait wait_block report
  ends_reaped any n xstatus scan popped good =
      let reports : (status_addr == 0 || copied) ≡ true = ground arith in
      rw at (rw scan (rw popped (rw reports refl)))

  ends_unreported :
      (any : Bool) (n xstatus : ℕ)
      → scan_kids fresh p.pid t (after_push h)
        ≡ done (record { has_kids = any; zombie_pid = some n; zombie_xstatus = xstatus }, t') g
      → pop_interrupt_off g ≡ some h'
      → status_addr ≢ 0
      → copied ≡ false
      → kwait fresh status_addr copied self t h ≡ panic
  unfolding kwait wait_block report
  ends_unreported any n xstatus scan popped address fails =
      let no_report : (status_addr == 0 || copied) ≡ false = ground arith in
      rw at (rw scan (rw popped (rw no_report refl)))

  ends_childless :
      scan_kids fresh p.pid t (after_push h)
        ≡ done (record { has_kids = false; zombie_pid = none; zombie_xstatus = 0 }, t') g
      → pop_interrupt_off g ≡ some h'
      → kwait fresh status_addr copied self t h ≡ done (no_kids, t') h'
  unfolding kwait wait_block
  ends_childless scan popped = rw at (rw scan (rw popped refl))

  ends_asleep :
      (parked : List Process)
      → scan_kids fresh p.pid t (after_push h)
        ≡ done (record { has_kids = true; zombie_pid = none; zombie_xstatus = 0 }, t') g
      → park p.pid t' g ≡ done parked (after_push g)
      → pop_interrupt_off (after_push g) ≡ some h'
      → sched sleeping h' ≡ done h'.interrupt_prev_state h'
      → kwait fresh status_addr copied self t h ≡ done (sleeps, parked) h'
  unfolding kwait wait_block
  ends_asleep parked scan park popped ready = rw at (rw scan (rw park (rw popped (rw ready refl))))

ends_panic :
    (fresh : Option Uvm) (status_addr : ℕ) (copied : Bool) (self : ℕ) (p : Process)
    (t : List Process) (h : Hart)
    → get_elem? t self ≡ some p
    → scan_kids fresh p.pid t (after_push h) ≡ panic
    → kwait fresh status_addr copied self t h ≡ panic
unfolding kwait wait_block
ends_panic fresh status_addr copied self p t h at scan = rw at (rw scan refl)

report_cases :
    (status_addr : ℕ) (copied : Bool)
    → ((status_addr ≡ 0) ⊎ (copied ≡ true)) ⊎ (status_addr ≢ 0) × (copied ≡ false)
report_cases zero copied = inl (inl refl)
report_cases (suc n) true = inl (inr refl)
report_cases (suc n) false = inr ((λ e. omega (arith, e)), refl)

-- The end of the block, from what the scan has returned.
wait_block-Kwait :
    (fresh : Option Uvm) (status_addr : ℕ) (copied : Bool) (self : ℕ) (p : Process)
    (t : List Process) (h : Hart)
    → get_elem? t self ≡ some p
    → All IsUnlocked t
    → All (λ q. is_zombie q.state ≡ true → q.pid ≢ none) t
    → IsHart h
    → h.interrupt_off_stack ≡ 0
    → {r : Run Hart (Kids × List Process)} → scan_kids fresh p.pid t (after_push h) ≡ r
    → Scanned fresh p.pid t (after_push h) r
    → Kwait fresh status_addr copied p t h (kwait fresh status_addr copied self t h)
wait_block-Kwait fresh status_addr copied self p t h at unlocked named w outer scan
      (all_alive {any} {h' = g} e all back) =
    elim (Bool-cases any) [
      | inl some_kid ↦
          let (k, q, at_k, own, parked) = park_lem p.pid t self p g at refl unlocked in
          let (h', popped, same) = push_then_pop g (Restored-IsHart (push-IsHart h w) back) in
          let under = Restored-trans back same in
          rw
            (ends_asleep fresh status_addr copied self p t t h g at (set t k (asleep q))
              (rw (sym some_kid) scan) parked popped (sched_ready sleeping h h' w outer under refl))
            (goes_to_sleep k (sym e ∙ some_kid) all at_k own under)
      | inr no_kid ↦
          let (h', popped, same) = pop-push h g w back in
          rw
            (ends_childless fresh status_addr copied self p t t h g at (rw (sym no_kid) scan)
              popped)
            (childless (sym e ∙ no_kid) same)
    ]
wait_block-Kwait fresh status_addr copied self p t h at unlocked named w outer scan
      (one_dead i {q} {uvm} {h' = g} at_i parent dead made back) =
    elim (Option-cases q.pid) [
      | inl none_pid ↦
          absurd
            (All-get (λ q. is_zombie q.state ≡ true → q.pid ≢ none) t i named at_i dead none_pid)
      | inr (n, has_pid) ↦
          let (h', popped, same) = pop-push h g w back in
          elim (report_cases status_addr copied) [
            | inl good ↦
                rw
                  (ends_reaped fresh status_addr copied self p t (set t i (given_back q uvm)) h g at
                    true n q.xstatus (rw (sym has_pid) scan) popped good)
                  (child_reaped i at_i parent dead has_pid made good same)
            | inr (address, fails) ↦
                rw
                  (ends_unreported fresh status_addr copied self p t (set t i (given_back q uvm)) h
                    g at true n q.xstatus (rw (sym has_pid) scan) popped address fails)
                  (bad_address i at_i parent dead address fails)
          ]
    ]
wait_block-Kwait fresh status_addr copied self p t h at unlocked named w outer scan
      (no_memory i at_i parent dead fails) =
    rw (ends_panic fresh status_addr copied self p t h at scan)
      (cannot_free i at_i parent dead fails)

pub kwait-Kwait :
    (fresh : Option Uvm) (status_addr : ℕ) (copied : Bool) (self : ℕ) (p : Process)
    (t : List Process) (h : Hart)
    → get_elem? t self ≡ some p
    → All IsUnlocked t
    → All (λ q. is_zombie q.state ≡ true → q.pid ≢ none) t
    → IsHart h
    → h.interrupt_off_stack ≡ 0
    → Kwait fresh status_addr copied p t h (kwait fresh status_addr copied self t h)
kwait-Kwait fresh status_addr copied self p t h at unlocked named w outer =
    wait_block-Kwait fresh status_addr copied self p t h at unlocked named w outer refl
      (scan_kids-Scanned fresh p.pid t (after_push h) unlocked (push-IsHart h w))
