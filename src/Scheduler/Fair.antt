-- ===== src/Scheduler/Fair.antt =====
-- `scheduler` is fair: a process that stays runnable is passed over only so many times.
use mathlib.Core.Bool.{false≢true}
use rust_baremetal.Prelude.{
  ℕ, zero, suc, ◌+◌, ◌-◌, ◌≤◌, ◌<◌, ◌≡◌, ◌≢◌, ◌∙◌, inl, inr, refl, sym, ap, arith, true, ltb,
  Option, none, some, List, [], ◌∷◌, All, get_elem?, set, Bool-cases,
}
use rust_baremetal.Prelude.Word.{word_mod}
use rust_baremetal.Hart.{Hart, interrupt_on, interrupt_off}
use rust_baremetal.Hart.Nesting.{IsHart, window-IsHart}
use rust_baremetal.Machine.Outcome.{Run, done, panic, and_then}
use rust_baremetal.Process.{Process, is_runnable, running}
use rust_baremetal.Process.Locks.{IsUnlocked}
use rust_baremetal.Scheduler.{pick, start, before_switch}
use rust_baremetal.Scheduler.Pick.{Picked, idle, chosen, pick-Picked, chosen_slot, Earlier, All-get}

-- How far the slots of a table are behind `q` quants, all together.
unfoldable pub lead : ℕ → List Process → ℕ
lead q [] = 0
lead q (p ∷ ps) = (q + 1 - p.quants) + lead q ps

lead-set :
    (q : ℕ) (t : List Process) (j : ℕ) {p : Process} (v : Process)
    → get_elem? t j ≡ some p
    → lead q (set t j v) + (q + 1 - p.quants) ≡ lead q t + (q + 1 - v.quants)
unfolding lead
lead-set q [] j v e = cc
lead-set q (x ∷ t) zero {p} v e =
    let same : x ≡ p = cc in
    let quants : x.quants ≡ p.quants = ap (λ y. y.quants) same in omega arith
lead-set q (x ∷ t) (suc j) v e = omega (arith, lead-set q t j v e)

get-set :
    (t : List Process) (j : ℕ) {p : Process} (v : Process)
    → get_elem? t j ≡ some p
    → get_elem? (set t j v) j ≡ some v
get-set [] j v e = cc
get-set (x ∷ t) zero v e = refl
get-set (x ∷ t) (suc j) v e = get-set t j v e

-- The slots are the same ones, and none has run less than before.
abbrev pub Later : List Process → List Process → Type 0
Later [] [] = Unit {0}
Later (p ∷ ps) (q ∷ qs) = (p.quants ≤ q.quants) × Later ps qs
Later _ _ = ⊥

pub Later-refl : (t : List Process) → Later t t
Later-refl [] = tt
Later-refl (p ∷ t) = (omega arith, Later-refl t)

lead-Later : (q : ℕ) (t u : List Process) → Later t u → lead q u ≤ lead q t
unfolding lead
lead-Later q [] [] h = omega arith
lead-Later q (x ∷ t) (y ∷ u) h = omega (arith, h.0, lead-Later q t u h.1)
lead-Later q [] (y ∷ u) h = absurd h
lead-Later q (x ∷ t) [] h = absurd h

-- A runnable process with `q` quants in slot `i`.
abbrev pub Ready : ℕ → ℕ → List Process → Type 0
Ready i q t =
    (p : Process) × (get_elem? t i ≡ some p) × (is_runnable p.state ≡ true) × (p.quants ≡ q)

-- `n` rounds of the scheduler in a row from the table `t` in which another process than slot `i`
-- is found, although that slot is ready, with no lock held, whenever a round begins. Between two
-- rounds anything may happen to the table, but that slots are lost or run less than they have.
pub data PassedOver (i q : ℕ) : ℕ → List Process → Type 0 where
  none_yet : {t : List Process} → PassedOver i q 0 t
  again :
      {n : ℕ} {t u t' : List Process} {h h' : Hart} {found : Option ℕ}
      → All IsUnlocked t
      → IsHart h
      → Ready i q t
      → before_switch t h ≡ done (found, u) h'
      → found ≢ some i
      → Later u t'
      → PassedOver i q n t'
      → PassedOver i q (suc n) t

panics : {S A : Type 0} {a : A} {s : S} → ¬ (◌≡◌ {A = Run S A} panic (done a s))
panics e = cc

returns : {S A : Type 0} {a b : A} {s s' : S} → ◌≡◌ {A = Run S A} (done a s) (done b s') → a ≡ b
returns e = cc

-- A round that finds another slot brings that one nearer.
module _ (i q : ℕ) (t : List Process) (ready : Ready i q t) where
  start-lead :
      {u : List Process} (h : Hart) {h' : Hart} {found : Option ℕ} (j : ℕ) (p : Process)
      → get_elem? t j ≡ some p
      → p.quants ≤ q
      → start j (set t j (chosen_slot p)) h ≡ done (found, u) h'
      → lead q u + 1 ≡ lead q t
  unfolding start
  start-lead {u} h {h'} {found} j p at_j le =
      rw (get-set t j (chosen_slot p) at_j) (elim (Bool-cases (ltb (p.quants + 1) word_mod)) [
        | inr over ↦ rw over λ e. absurd (panics e)
        | inl fits ↦ rw fits λ e.
            let slot = record p { state = running; lock = true; quants = p.quants + 1 } in
            let first = lead-set q t j (chosen_slot p) at_j in
            let second =
              lead-set q (set t j (chosen_slot p)) j slot (get-set t j (chosen_slot p) at_j) in
            let same : set (set t j (chosen_slot p)) j slot ≡ u = ap (λ r. r.1) (returns e) in
            let total : lead q (set (set t j (chosen_slot p)) j slot) + 1 ≡ lead q t =
              omega (arith, first, second) in
            rw same at total
      ])

  round-lead :
      {u : List Process} (h : Hart) {h' : Hart} {found : Option ℕ}
      {r : Run Hart (Option ℕ × List Process)}
      → Picked t h r
      → found ≢ some i
      → and_then {B = Option ℕ × List Process} r (λ (p : Option ℕ × List Process). elim p.0 [
        | none ↦ (λ g. done (none, p.1) (interrupt_on g))
        | some k ↦ start k p.1
      ])
        ≡ done (found, u) h'
      → lead q u + 1 ≡ lead q t
  round-lead h (idle waits _) other e =
      let (p, at_i, runs, _) = ready in absurd (false≢true (sym (waits i p at_i) ∙ runs))
  round-lead h (chosen {i = j} {p = p} {h' = g} at_j runs first _) other e =
      let (own, at_i, own_runs, quants) = ready in
      start-lead g j p at_j (grind (arith, first i own at_i own_runs)) e

-- The slot that a round has found, once it has been counted.
abbrev pub started : Process → Process
started p = record p { state = running; lock = true; quants = p.quants + 1 }

-- A round in which some slot is ready finds one, a slot that has run least.
pub record Found (t : List Process) (h : Hart) : Type 0 where
  pub slot : ℕ
  pub process : Process
  pub hart : Hart
  pub at : get_elem? t slot ≡ some process
  pub least :
      (k : ℕ) (p : Process)
      → get_elem? t k ≡ some p
      → is_runnable p.state ≡ true
      → Earlier slot process k p
  pub run :
      before_switch t h
      ≡ done (some slot, set (set t slot (chosen_slot process)) slot (started process)) hart

pub before_switch-Found :
    (i q : ℕ) (t : List Process) (h : Hart)
    → Ready i q t
    → All IsUnlocked t
    → IsHart h
    → All (λ p. p.quants + 1 < word_mod) t
    → Found t h
unfolding before_switch start
before_switch-Found i q t h ready unlocked w small =
    let window = interrupt_off (interrupt_on h) in
    found (pick t window) (pick-Picked t window unlocked (window-IsHart h w)) refl
  where
    found :
        (r : Run Hart (Option ℕ × List Process))
        → Picked t (interrupt_off (interrupt_on h)) r
        → pick t (interrupt_off (interrupt_on h)) ≡ r
        → Found t h
    found r (idle waits _) e =
        let (p, at_i, runs, _) = ready in absurd (false≢true (sym (waits i p at_i) ∙ runs))
    found r (chosen {i = j} {p = p} {h' = g} at_j runs first _) e =
        let fits : ltb (p.quants + 1) word_mod ≡ true =
          ground (arith, All-get (λ x. x.quants + 1 < word_mod) t j small at_j) in
        record {
          slot = j;
          process = p;
          hart = g;
          at = at_j;
          least = first;
          run = rw (e, get-set t j (chosen_slot p) at_j, fits) refl;
        }

-- Liveness: a process that is ready whenever a round begins is found after at most `lead` rounds that
-- find another: one for each quantum, and one more, that each slot is behind it.
pub PassedOver-lead : (i q n : ℕ) (t : List Process) → PassedOver i q n t → n ≤ lead q t
unfolding before_switch
PassedOver-lead i q zero t rounds = omega arith
PassedOver-lead i q (suc n) t
      (again {u = u} {t' = t'} {h = h} unlocked w ready ran other later rest) =
    omega (
      arith,
      PassedOver-lead i q n t' rest,
      lead-Later q u t' later,
      round-lead i q t ready (interrupt_off (interrupt_on h))
          (pick-Picked t (interrupt_off (interrupt_on h)) unlocked (window-IsHart h w)) other ran,
    )
