-- ===== src/Lifecycle/Wakeups.antt =====
-- No wakeup is lost: nobody sleeps on the channel of a process while a child of that process is a
-- zombie.
use mathlib.Core.Bool.{false≢true}
use rust_baremetal.Prelude.{
  ℕ, zero, suc, ◌≡◌, ◌≢◌, ◌∙◌, ◌⊎◌, inl, inr, refl, sym, ap, arith, Bool, true, false, ◌&&◌, Option,
  some, List, [], ◌∷◌, map, All, opt_eq, opt_eq_iff, opt_eq_refl, get_elem?, set, Bool-cases,
}
use rust_baremetal.Process.{Process, ProcState, sleeping, zombie, is_sleeping, is_zombie}
use rust_baremetal.Kernel.{any_child}
use rust_baremetal.Kernel.Wakeup.{woken, new_parent, adopted, reparented}
use rust_baremetal.Lifecycle.Exit.{All-get, left_behind, ended, after_exit, reparented-parent}

pub NoLostWakeup : List Process → Type 0
NoLostWakeup t =
    (i j : ℕ) (p q : Process)
    → get_elem? t i ≡ some p
    → get_elem? t j ≡ some q
    → is_sleeping p.state ≡ true
    → q.parent ≡ p.sleep_channel
    → is_zombie q.state ≡ false

asleep_alive : (s : ProcState) → is_sleeping s ≡ true → is_zombie s ≡ false
asleep_alive sleeping e = refl
asleep_alive zombie e = cc
asleep_alive _ e = cc

get_elem?-set :
    (t : List Process) (k i : ℕ) (v : Process) {p : Process}
    → get_elem? (set t k v) i ≡ some p
    → (p ≡ v) ⊎ (get_elem? t i ≡ some p)
get_elem?-set [] k i v e = cc
get_elem?-set (q ∷ t) zero zero v e = inl (cc)
get_elem?-set (q ∷ t) zero (suc i) v e = inr e
get_elem?-set (q ∷ t) (suc k) zero v e = inr e
get_elem?-set (q ∷ t) (suc k) (suc i) v e = get_elem?-set t k i v e

map-get_elem? :
    (f : Process → Process) (t : List Process) (i : ℕ) {p : Process}
    → get_elem? (map f t) i ≡ some p
    → (q : Process) × (get_elem? t i ≡ some q) × (p ≡ f q)
map-get_elem? f [] i e = cc
map-get_elem? f (q ∷ t) zero e = (q, refl, cc)
map-get_elem? f (q ∷ t) (suc i) e = map-get_elem? f t i e

any_child-true :
    (pid : Option ℕ) (t : List Process) (j : ℕ) {q : Process}
    → get_elem? t j ≡ some q
    → q.parent ≡ pid
    → any_child pid t ≡ true
unfolding any_child
any_child-true pid [] j e own = cc
any_child-true pid (p ∷ t) zero {q} e own =
    let one : p ≡ q = cc in rw (ap (λ x. x.parent) one ∙ own, opt_eq_refl pid) refl
any_child-true pid (p ∷ t) (suc j) e own = ground (arith, any_child-true pid t j e own)

-- One slot changes: what sleeps in it waits for nobody that has ended, and who ends in it is waited
-- for by nobody.
pub set-NoLostWakeup :
    (t : List Process) (k : ℕ) (v : Process)
    → NoLostWakeup t
    → (is_sleeping v.state ≡ true
        → (j : ℕ) (q : Process) → get_elem? t j ≡ some q
        → q.parent ≡ v.sleep_channel
        → is_zombie q.state ≡ false)
    → ((i : ℕ) (p : Process)
        → get_elem? t i ≡ some p
        → is_sleeping p.state ≡ true
        → v.parent ≡ p.sleep_channel
        → is_zombie v.state ≡ false)
    → NoLostWakeup (set t k v)
unfolding NoLostWakeup
set-NoLostWakeup t k v ok sleeper ender i j p q at_i at_j s c = elim (get_elem?-set t k i v at_i) [
  | inl p_new ↦ elim (get_elem?-set t k j v at_j) [
    | inl q_new ↦ rw q_new (asleep_alive v.state (rw (sym p_new) s))
    | inr q_old ↦ sleeper (rw (sym p_new) s) j q q_old (rw (sym p_new) c)
  ]
  | inr p_old ↦ elim (get_elem?-set t k j v at_j) [
    | inl q_new ↦ rw q_new (ender i p p_old s (rw (sym q_new) c))
    | inr q_old ↦ ok i j p q p_old q_old s c
  ]
]

woken_asleep :
    (c : Option ℕ) (q : Process)
    → is_sleeping (woken c q).state ≡ true
    → (is_sleeping q.state ≡ true) × (woken c q ≡ q) × (q.sleep_channel ≢ c)
woken_asleep c q = elim (Bool-cases (is_sleeping q.state && opt_eq q.sleep_channel c)) [
  | inl both ↦ rw both λ s. absurd (false≢true s)
  | inr other ↦ rw other λ s. (s, refl, λ e. false≢true (sym other ∙ rw (s, e) (opt_eq_refl c)))
]

woken_zombie : (c : Option ℕ) (q : Process) → is_zombie (woken c q).state ≡ is_zombie q.state
woken_zombie c q = elim (Bool-cases (is_sleeping q.state && opt_eq q.sleep_channel c)) [
  | inl both ↦ rw both (sym (asleep_alive q.state (ground (arith, both))))
  | inr other ↦ rw other refl
]

woken-parent : (c : Option ℕ) (q : Process) → (woken c q).parent ≡ q.parent
woken-parent c q = ground arith

-- Who still sleeps after the end of `p` slept before, on another channel.
still_asleep :
    (p : Process) (any : Bool) (q : Process)
    → is_sleeping (left_behind p any q).state ≡ true
    → (is_sleeping q.state ≡ true)
      × ((left_behind p any q).sleep_channel ≡ q.sleep_channel)
      × (q.sleep_channel ≢ p.parent)
      × (any ≡ true → q.sleep_channel ≢ some 0)
still_asleep p true q s =
    let (s1, e1, n1) = woken_asleep p.parent (reparented p.pid true q) s in
    let (s0, e0, n0) = woken_asleep (some 0) (adopted p.pid q) s1 in
    let same : (reparented p.pid true q).sleep_channel ≡ q.sleep_channel =
      ap (λ x. x.sleep_channel) e0 in
    (s0, ap (λ x. x.sleep_channel) e1 ∙ same, λ e. n1 (same ∙ e), λ _. n0)
still_asleep p false q s =
    let (s1, e1, n1) = woken_asleep p.parent (adopted p.pid q) s in
    (s1, ap (λ x. x.sleep_channel) e1, n1, λ e. absurd (false≢true e))

-- No other process becomes a zombie.
still_zombie :
    (p : Process) (any : Bool) (q : Process)
    → is_zombie (left_behind p any q).state ≡ is_zombie q.state
still_zombie p true q =
    woken_zombie p.parent (reparented p.pid true q) ∙ woken_zombie (some 0) (adopted p.pid q)
still_zombie p false q = woken_zombie p.parent (adopted p.pid q)

left_behind-parent :
    (p : Process) (any : Bool) (q : Process)
    → (left_behind p any q).parent ≡ new_parent p.pid q.parent
left_behind-parent p true q =
    woken-parent p.parent (reparented p.pid true q) ∙ woken-parent (some 0) (adopted p.pid q)
left_behind-parent p false q = woken-parent p.parent (adopted p.pid q)

module _ (self xstatus : ℕ) (p : Process) (t : List Process) (not_own : p.parent ≢ p.pid)
    (ok : NoLostWakeup t) where
  abbrev any : Bool
  any = any_child p.pid t

  others-NoLostWakeup : NoLostWakeup (map (left_behind p any) t)
  unfolding NoLostWakeup
  others-NoLostWakeup i j a b at_i at_j s c =
      let (a0, old_i, a_is) = map-get_elem? (left_behind p any) t i at_i in
      let (b0, old_j, b_is) = map-get_elem? (left_behind p any) t j at_j in
      let (s0, same, _, not_init) = still_asleep p any a0 (rw (sym a_is) s) in
      let parent : new_parent p.pid b0.parent ≡ a0.sleep_channel =
        sym (left_behind-parent p any b0)
        ∙ (ap (λ x. x.parent) (sym b_is) ∙ (c ∙ (ap (λ x. x.sleep_channel) a_is ∙ same))) in
      rw (b_is, still_zombie p any b0)
        (elim (Bool-cases (opt_eq b0.parent p.pid)) [
          | inl child ↦ absurd (
              not_init (any_child-true p.pid t j old_j ((opt_eq_iff b0.parent p.pid).0 child))
                (sym parent ∙ rw child refl))
          | inr other ↦ ok i j a0 b0 old_i old_j s0 (rw other at parent)
        ])

  pub after_exit-NoLostWakeup : NoLostWakeup (after_exit self xstatus p t)
  after_exit-NoLostWakeup =
      set-NoLostWakeup (map (left_behind p any) t) self (ended (left_behind p any p) xstatus)
        others-NoLostWakeup (λ s. absurd (false≢true s))
        (λ i a at_i s c.
          let (a0, old_i, a_is) = map-get_elem? (left_behind p any) t i at_i in
          let (_, same, elsewhere, _) = still_asleep p any a0 (rw (sym a_is) s) in
          absurd (
            elsewhere (
              sym (ap (λ x. x.sleep_channel) a_is ∙ same)
              ∙ (sym c
                  ∙ (woken-parent p.parent (reparented p.pid any p)
                      ∙ reparented-parent p any not_own)))))

-- A wakeup leaves fewer sleepers, and no more zombies.
pub woken-NoLostWakeup :
    (c : Option ℕ) (t : List Process) → NoLostWakeup t → NoLostWakeup (map (woken c) t)
unfolding NoLostWakeup
woken-NoLostWakeup c t ok i j a b at_i at_j s e =
    let (a0, old_i, a_is) = map-get_elem? (woken c) t i at_i in
    let (b0, old_j, b_is) = map-get_elem? (woken c) t j at_j in
    let (s0, same, _) = woken_asleep c a0 (rw (sym a_is) s) in
    rw (b_is, woken_zombie c b0)
      (ok i j a0 b0 old_i old_j s0 (
        sym (woken-parent c b0)
        ∙ (ap (λ x. x.parent) (sym b_is) ∙ (e ∙ ap (λ x. x.sleep_channel) (a_is ∙ same)))))

-- Only the state, the parent and the channel of a slot count.
pub same-NoLostWakeup :
    (t : List Process) (i : ℕ) (p v : Process)
    → get_elem? t i ≡ some p
    → v.state ≡ p.state
    → v.parent ≡ p.parent
    → v.sleep_channel ≡ p.sleep_channel
    → NoLostWakeup t
    → NoLostWakeup (set t i v)
unfolding NoLostWakeup
same-NoLostWakeup t i p v at state parent channel ok =
    set-NoLostWakeup t i v ok (λ s j q at_j e. ok i j p q at at_j (rw (sym state) s) (e ∙ channel))
      (λ j q at_j s e. rw state (ok j i q p at_j at s (sym parent ∙ e)))

pub living-NoLostWakeup :
    (t : List Process) → All (λ q. is_zombie q.state ≡ false) t → NoLostWakeup t
unfolding NoLostWakeup
living-NoLostWakeup t alive i j p q at_i at_j s e =
    All-get (λ q. is_zombie q.state ≡ false) t j alive at_j
