-- ===== src/Scheduler/Order.antt =====
-- The order in which `scheduler` looks at the slots.
use native.Mathlib.Decide.{ℕ_discrete}
use rust_baremetal.Prelude.{
  ℕ, zero, suc, ◌+◌, ◌≤◌, ◌<◌, ◌≡◌, ◌⊎◌, inl, inr, arith, List, [], ◌∷◌, All, Bool-cases, leb,
  length,
}
use rust_baremetal.Process.{Process}
use rust_baremetal.Scheduler.{insert, sort_by_key, range, order, quants_at}

All-both :
    {A : Type 0} {P Q R : A → Type 0} (xs : List A)
    → ((x : A) → P x → Q x → R x)
    → All P xs
    → All Q xs
    → All R xs
All-both [] f h k = tt
All-both (x ∷ xs) f h k = (f x h.0 k.0, All-both xs f h.1 k.1)

module _ (key : ℕ → ℕ) where
  -- A smaller key comes first, and of two equal ones the smaller index.
  abbrev pub Before : ℕ → ℕ → Type 0
  Before i j = (key i < key j) ⊎ ((key i ≡ key j) × (i ≤ j))

  abbrev pub Sorted : List ℕ → Type 0
  Sorted [] = Unit
  Sorted (x ∷ xs) = All (Before x) xs × Sorted xs

  insert-All : (P : ℕ → Type 0) (x : ℕ) (ys : List ℕ) → P x → All P ys → All P (insert key x ys)
  unfolding insert
  insert-All P x [] p h = (p, tt)
  insert-All P x (y ∷ ys) p h = elim (Bool-cases (leb (key x) (key y))) [
    | inl le ↦ rw le (p, h)
    | inr gt ↦ rw gt (h.0, insert-All P x ys p h.1)
  ]

  All-insert : (P : ℕ → Type 0) (x : ℕ) (ys : List ℕ) → All P (insert key x ys) → P x × All P ys
  unfolding insert
  All-insert P x [] = λ h. (h.0, tt)
  All-insert P x (y ∷ ys) = elim (Bool-cases (leb (key x) (key y))) [
    | inl le ↦ rw le λ h. (h.0, h.1)
    | inr gt ↦ rw gt λ h. let (p, rest) = All-insert P x ys h.1 in (p, (h.0, rest))
  ]

  -- `x` is smaller than every index that is there, as in a sort from the right.
  insert-Sorted : (x : ℕ) (ys : List ℕ) → All (λ y. x < y) ys → Sorted ys → Sorted (insert key x ys)
  unfolding insert
  insert-Sorted x [] h s = (tt, tt)
  insert-Sorted x (y ∷ ys) h s = elim (Bool-cases (leb (key x) (key y))) [
    | inl le ↦ rw le ((ground arith, All-both ys (λ z lt before. ground arith) h.1 s.0), s)
    | inr gt ↦
        rw gt (insert-All (Before y) x ys (inl (ground arith)) s.0, insert-Sorted x ys h.1 s.1)
  ]

  pub sort_by_key-All : (P : ℕ → Type 0) (xs : List ℕ) → All P xs → All P (sort_by_key key xs)
  unfolding sort_by_key
  sort_by_key-All P [] h = tt
  sort_by_key-All P (x ∷ xs) h = insert-All P x _ h.0 (sort_by_key-All P xs h.1)

  pub All-sort_by_key : (P : ℕ → Type 0) (xs : List ℕ) → All P (sort_by_key key xs) → All P xs
  unfolding sort_by_key
  All-sort_by_key P [] h = tt
  All-sort_by_key P (x ∷ xs) h =
      let (p, rest) = All-insert P x (sort_by_key key xs) h in (p, All-sort_by_key P xs rest)

range-All : (P : ℕ → Type 0) (i n : ℕ) → ((j : ℕ) → i ≤ j → j < i + n → P j) → All P (range i n)
unfolding range
range-All P i zero h = tt
range-All P i (suc n) h = (
  h i (omega arith) (omega arith),
  range-All P (i + 1) n (λ j lo hi. h j (omega arith) (omega arith)),
)

All-range : (P : ℕ → Type 0) (i n : ℕ) → All P (range i n) → (j : ℕ) → i ≤ j → j < i + n → P j
unfolding range
All-range P i zero h j lo hi = absurd (omega arith)
All-range P i (suc n) h j lo hi = elim (ℕ_discrete j i) [
  | yes e ↦ rw e h.0
  | no ne ↦ All-range P (i + 1) n h.1 j (omega arith) (omega arith)
]

sort_range-Sorted : (key : ℕ → ℕ) (i n : ℕ) → Sorted key (sort_by_key key (range i n))
unfolding sort_by_key range
sort_range-Sorted key i zero = tt
sort_range-Sorted key i (suc n) =
    insert-Sorted key i _
      (sort_by_key-All key (λ j. i < j) (range (i + 1) n)
        (range-All (λ j. i < j) (i + 1) n (λ j lo hi. omega arith)))
      (sort_range-Sorted key (i + 1) n)

-- Every slot is in the order, and nothing else.
module _ (table : List Process) where
  pub order-Sorted : Sorted (quants_at table) (order table)
  unfolding order
  order-Sorted = sort_range-Sorted (quants_at table) 0 (length table)

  pub order-in_range : All (λ i. i < length table) (order table)
  unfolding order
  order-in_range =
      sort_by_key-All (quants_at table) (λ i. i < length table) (range 0 (length table))
        (range-All (λ i. i < length table) 0 (length table) (λ j lo hi. omega arith))

  pub All-order : (P : ℕ → Type 0) → All P (order table) → (j : ℕ) → j < length table → P j
  unfolding order
  All-order P h j lt =
      All-range P 0 (length table) (All-sort_by_key (quants_at table) P (range 0 (length table)) h)
        j (omega arith) (omega arith)
