-- ===== src/Scheduler/Pick.antt =====
-- `pick`: the runnable process that has run least is found, if there is one.
use mathlib.Core.Bool.{false≢true}
use rust_baremetal.Prelude.{
  ℕ, zero, suc, ◌≤◌, ◌<◌, ◌≡◌, ◌∙◌, ◌⊎◌, inl, inr, refl, sym, ap, arith, true, false, Option, none,
  some, List, [], ◌∷◌, All, All-weaken, Bool-cases, length, get_elem?, set,
}
use rust_baremetal.Hart.{Hart, after_push, pop_interrupt_off}
use rust_baremetal.Hart.Nesting.{
  IsHart, Restored, Restored-IsHart, Restored-refl, Restored-trans, push-IsHart, push_then_pop,
  pop-push,
}
use rust_baremetal.Machine.Outcome.{Run, done, and_then}
use rust_baremetal.Process.{Process, running, is_runnable}
use rust_baremetal.Process.Locks.{IsUnlocked, lock_manual_free, unlock_manual_held}
use rust_baremetal.Scheduler.{scan, pick, order, quants_at, dropped}
use rust_baremetal.Scheduler.Order.{Before, Sorted, order-Sorted, order-in_range, All-order}

get_elem?-some :
    (t : List Process) (i : ℕ) → i < length t → (p : Process) × (get_elem? t i ≡ some p)
get_elem?-some [] i h = absurd (omega arith)
get_elem?-some (p ∷ t) zero h = (p, refl)
get_elem?-some (p ∷ t) (suc i) h = get_elem?-some t i (omega arith)

get_elem?-lt : (t : List Process) (i : ℕ) {p : Process} → get_elem? t i ≡ some p → i < length t
get_elem?-lt [] i e = cc
get_elem?-lt (p ∷ t) zero e = omega arith
get_elem?-lt (p ∷ t) (suc i) e = omega (arith, get_elem?-lt t i e)

set-same : (t : List Process) (i : ℕ) {p : Process} → get_elem? t i ≡ some p → set t i p ≡ t
set-same [] i e = refl
set-same (q ∷ t) zero {p} e = let same : p ≡ q = cc in rw same refl
set-same (q ∷ t) (suc i) e = ap (λ ps. q ∷ ps) (set-same t i e)

pub All-get :
    (P : Process → Type 0) (t : List Process) (i : ℕ) {p : Process}
    → All P t
    → get_elem? t i ≡ some p
    → P p
All-get P [] i h e = cc
All-get P (q ∷ t) zero {p} h e = let same : p ≡ q = cc in rw same h.0
All-get P (q ∷ t) (suc i) h e = All-get P t i h.1 e

quants_at-get :
    (t : List Process) (i : ℕ) {p : Process} → get_elem? t i ≡ some p → quants_at t i ≡ p.quants
unfolding quants_at
quants_at-get [] i e = cc
quants_at-get (q ∷ t) zero {p} e = let same : q ≡ p = cc in ap (λ x. x.quants) same
quants_at-get (q ∷ t) (suc i) e = quants_at-get t i e

-- The slot `i` holds no runnable process.
abbrev pub Waits : List Process → ℕ → Type 0
Waits t i = (p : Process) → get_elem? t i ≡ some p → is_runnable p.state ≡ false

data FirstRunnable (t : List Process) : List ℕ → ℕ → Process → Type 0 where
  here :
      {i : ℕ} {is : List ℕ} {p : Process}
      → get_elem? t i ≡ some p
      → is_runnable p.state ≡ true
      → FirstRunnable t (i ∷ is) i p
  later :
      {i j : ℕ} {is : List ℕ} {p : Process}
      → Waits t j
      → FirstRunnable t is i p
      → FirstRunnable t (j ∷ is) i p

-- The slot of a process that will run: its lock stays held.
abbrev pub chosen_slot : Process → Process
chosen_slot p = record p { state = running; lock = true }

data Scanned (t : List Process) (is : List ℕ) (h : Hart)
    : Run Hart (Option ℕ × List Process) → Type 0 where
  none_runs : {h' : Hart} → All (Waits t) is → Restored h h' → Scanned t is h (done (none, t) h')
  first_runs :
      {i : ℕ} {p : Process} {h' : Hart}
      → FirstRunnable t is i p
      → Restored h h'
      → Scanned t is h (done (some i, set t i (chosen_slot p)) (after_push h'))

Scanned-cons :
    {t : List Process} {i : ℕ} {is : List ℕ} {h g : Hart} {r : Run Hart (Option ℕ × List Process)}
    → Waits t i
    → Restored h g
    → Scanned t is g r
    → Scanned t (i ∷ is) h r
Scanned-cons waits same (none_runs all back) = none_runs (waits, all) (Restored-trans same back)
Scanned-cons waits same (first_runs first back) =
    first_runs (later waits first) (Restored-trans same back)

scan-Scanned :
    (is : List ℕ) (t : List Process) (h : Hart)
    → All (λ i. i < length t) is
    → All IsUnlocked t
    → IsHart h
    → Scanned t is h (scan is t h)
unfolding scan
scan-Scanned [] t h bound free w = none_runs tt (Restored-refl h)
scan-Scanned (i ∷ is) t h bound free w =
    let (p, e) = get_elem?-some t i bound.0 in
    let unlocked = All-get IsUnlocked t i free e in
    rw (e, lock_manual_free p h unlocked)
      (elim (Bool-cases (is_runnable p.state)) [
        | inl runs ↦ rw runs (first_runs (here e runs) (Restored-refl h))
        | inr waits ↦
            let (g, popped, same) = push_then_pop h w in
            let back : record p { lock = false } ≡ p = rw (sym unlocked) refl in
            rw waits (
              rw (unlock_manual_held (record p { lock = true }) _ popped) (
                rw (back, set-same t i e)
                  (Scanned-cons (λ q e'. let one : p ≡ q = cc in rw (sym one) waits) same
                    (scan-Scanned is t g bound.1 free (Restored-IsHart w same)))))
      ])

-- The process `p` of slot `i` comes before the process `q` of slot `j`: it has run less, or as much
-- and its slot comes first.
abbrev pub Earlier : ℕ → Process → ℕ → Process → Type 0
Earlier i p j q = (p.quants < q.quants) ⊎ ((p.quants ≡ q.quants) × (i ≤ j))

-- How `pick` ends.
pub data Picked (t : List Process) (h : Hart) : Run Hart (Option ℕ × List Process) → Type 0 where
  idle : {h' : Hart} → ((j : ℕ) → Waits t j) → Restored h h' → Picked t h (done (none, t) h')
  chosen :
      {i : ℕ} {p : Process} {h' : Hart}
      → get_elem? t i ≡ some p
      → is_runnable p.state ≡ true
      → ((j : ℕ) (q : Process)
          → get_elem? t j ≡ some q
          → is_runnable q.state ≡ true
          → Earlier i p j q)
      → Restored (after_push h) h'
      → Picked t h (done (some i, set t i (chosen_slot p)) h')

module _ (t : List Process) where
  first-found :
      {is : List ℕ} {i : ℕ} {p : Process}
      → FirstRunnable t is i p
      → (get_elem? t i ≡ some p) × (is_runnable p.state ≡ true)
  first-found (here e runs) = (e, runs)
  first-found (later _ first) = first-found first

  -- In a sorted list the first runnable slot is the least.
  first-least :
      {is : List ℕ} {i : ℕ} {p : Process}
      → FirstRunnable t is i p
      → Sorted (quants_at t) is
      → All
          (λ j.
            (q : Process)
            → get_elem? t j ≡ some q
            → is_runnable q.state ≡ true
            → Before (quants_at t) i j)
          is
  first-least (here {i} {is} e runs) sorted =
      (λ q e' r. inr (refl, omega arith), All-weaken is (λ j before q e' r. before) sorted.0)
  first-least (later waits first) sorted =
      (λ q e' r. absurd (false≢true (sym (waits q e') ∙ r)), first-least first sorted.1)

  first-Earlier :
      {i : ℕ} {p : Process}
      → FirstRunnable t (order t) i p
      → (j : ℕ) (q : Process) → get_elem? t j ≡ some q
      → is_runnable q.state ≡ true
      → Earlier i p j q
  first-Earlier {i} {p} first j q e runs =
      let before =
        All-order t _ (first-least first (order-Sorted t)) j (get_elem?-lt t j e) q e runs in
      rw (sym (quants_at-get t i (first-found first).0), sym (quants_at-get t j e)) before

-- The guard is dropped behind the loop.
Scanned-Picked :
    (t : List Process) (h : Hart) {r : Run Hart (Option ℕ × List Process)}
    → IsHart h
    → Scanned t (order t) (after_push h) r
    → Picked t h
        (and_then r (λ found g. and_then (dropped (pop_interrupt_off g) g) (λ _ g'. done found g')))
Scanned-Picked t h w (none_runs {h' = g} all back) =
    let (h', popped, same) = pop-push h g w back in
    rw popped (idle (λ j q e. All-order t (Waits t) all j (get_elem?-lt t j e) q e) same)
Scanned-Picked t h w (first_runs {h' = g} first back) =
    let (h', popped, same) = push_then_pop g (Restored-IsHart (push-IsHart h w) back) in
    let (e, runs) = first-found t first in
    rw popped (chosen e runs (first-Earlier t first) (Restored-trans back same))

-- With no lock held, `pick` returns. If no process is runnable it finds none, changes nothing and
-- restores the interrupt state. Otherwise it finds a runnable process with the fewest quants, the
-- first slot among equals, marks it as running with its lock held, leaves every other slot as it
-- is, and the interrupt state is that of one lock more.
pub pick-Picked :
    (t : List Process) (h : Hart) → All IsUnlocked t → IsHart h → Picked t h (pick t h)
unfolding pick
pick-Picked t h free w =
    Scanned-Picked t h w
      (scan-Scanned (order t) t (after_push h) (order-in_range t) free (push-IsHart h w))
