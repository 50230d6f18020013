-- ===== src/Machine/Outcome.antt =====
-- Commands over a state: they return, return `Err(())`, panic, or run out of fuel.
use rust_baremetal.Prelude.{Bool, true, false, Option, none, some, ◌≡◌, refl}

module _ {ℓ} where
  pub data Run (S : Type ℓ) (A : Type 0) : Type ℓ where
    done : A → S → Run S A
    err : S → Run S A
    panic : Run S A
    out_of_fuel : Run S A
    -- a lock that never comes free
    deadlock : Run S A

  abbrev pub M : Type ℓ → Type 0 → Type ℓ
  M S A = S → Run S A

  abbrev pub pure : {S : Type ℓ} {A : Type 0} → A → M S A
  pure = done

  abbrev pub and_then : {S : Type ℓ} {A B : Type 0} → Run S A → (A → M S B) → Run S B
  and_then (done a s) k = k a s
  and_then (err s) k = err s
  and_then panic k = panic
  and_then out_of_fuel k = out_of_fuel
  and_then deadlock k = deadlock

  infixl 5 ◌>>=◌ ◌>>◌
  abbrev pub ◌>>=◌ : {S : Type ℓ} {A B : Type 0} → M S A → (A → M S B) → M S B
  m >>= k = λ s. and_then (m s) k

  abbrev pub ◌>>◌ : {S : Type ℓ} {A B : Type 0} → M S A → M S B → M S B
  m >> n = m >>= λ _. n

  -- `o.ok_or(())?`
  abbrev pub ok_or : {S : Type ℓ} {A : Type 0} → Option A → M S A
  ok_or none = err
  ok_or (some a) = done a

  -- `r.unwrap()`, where `r` is a `Result`
  abbrev pub unwrapped : {S : Type ℓ} {A : Type 0} → Run S A → Run S A
  unwrapped (done a s) = done a s
  unwrapped (err s) = panic
  unwrapped panic = panic
  unwrapped out_of_fuel = out_of_fuel
  unwrapped deadlock = deadlock

  abbrev pub unwrap : {S : Type ℓ} {A : Type 0} → M S A → M S A
  unwrap m = λ s. unwrapped (m s)

  -- `o.expect(…)`, or `o.unwrap()` where `o` is an `Option`
  abbrev pub expect : {S : Type ℓ} {A : Type 0} → Option A → M S A
  expect none = λ s. panic
  expect (some a) = done a

-- A run that returns with `P` or fails with `Q`: it does not panic, and its fuel is enough.
pub data Ends {ℓ κ} {S : Type ℓ} {A : Type 0} (P : A → S → Type κ) (Q : S → Type κ)
    : Run S A → Type (ℓ ⊔ κ) where
  returned : {a : A} {s : S} → P a s → Ends P Q (done a s)
  failed : {s : S} → Q s → Ends P Q (err s)

module _ {ℓ κ} {S : Type ℓ} {A : Type 0} {P : A → S → Type κ} {Q : S → Type κ} where
  pub bind :
      {B : Type 0} {P' : B → S → Type κ} {r : Run S A} {k : A → M S B}
      → Ends P Q r
      → ((a : A) (s : S) → P a s → Ends P' Q (k a s))
      → Ends P' Q (and_then r k)
  bind (returned p) next = next _ _ p
  bind (failed q) next = failed q

  pub weaken :
      {P' : A → S → Type κ} {Q' : S → Type κ} {r : Run S A}
      → Ends P Q r
      → ((a : A) (s : S) → P a s → P' a s)
      → ((s : S) → Q s → Q' s)
      → Ends P' Q' r
  weaken (returned p) f g = returned (f _ _ p)
  weaken (failed q) f g = failed (g _ q)

-- `and_then` is associative.
pub and_then_assoc {ℓ} :
    {S : Type ℓ} {A B C : Type 0} (r : Run S A) (k : A → M S B) (l : B → M S C)
    → and_then r (λ a s. and_then (k a s) l) ≡ and_then (and_then r k) l
and_then_assoc (done a s) k l = refl
and_then_assoc (err s) k l = refl
and_then_assoc panic k l = refl
and_then_assoc out_of_fuel k l = refl
and_then_assoc deadlock k l = refl

-- A run on a part of the state; `put` puts the part back.
abbrev pub within {ℓ κ} : {S : Type ℓ} {T : Type κ} {A : Type 0} → (S → T) → Run S A → Run T A
within put (done a s) = done a (put s)
within put (err s) = err (put s)
within put panic = panic
within put out_of_fuel = out_of_fuel
within put deadlock = deadlock

-- `r.is_ok()`
abbrev pub is_ok {ℓ} : {S : Type ℓ} {A : Type 0} → Run S A → Run S Bool
is_ok (done a s) = done true s
is_ok (err s) = done false s
is_ok panic = panic
is_ok out_of_fuel = out_of_fuel
is_ok deadlock = deadlock

pub Ends-within {ℓ κ μ} :
    {S : Type ℓ} {T : Type μ} {A : Type 0} {P : A → S → Type κ} {Q : S → Type κ}
    {P' : A → T → Type κ} {Q' : T → Type κ} (put : S → T) {r : Run S A}
    → Ends P Q r
    → ((a : A) (s : S) → P a s → P' a (put s))
    → ((s : S) → Q s → Q' (put s))
    → Ends P' Q' (within put r)
Ends-within put (returned p) f g = returned (f _ _ p)
Ends-within put (failed q) f g = failed (g _ q)

-- Both of two postconditions.
pub Ends-both {ℓ κ} :
    {S : Type ℓ} {A : Type 0} {P P' : A → S → Type κ} {Q Q' : S → Type κ} {r : Run S A}
    → Ends P Q r
    → Ends P' Q' r
    → Ends (λ a s. P a s × P' a s) (λ s. Q s × Q' s) r
Ends-both (returned p) (returned p') = returned (p, p')
Ends-both (failed q) (failed q') = failed (q, q')
