-- ===== src/Hart/Nesting.antt =====
-- Locks nest: every balanced sequence of `push_interrupt_off` and `pop_interrupt_off`.
use rust_baremetal.Prelude.{
  false, true, inl, inr, ◌⊎◌, ◌≤◌, ltb, Bool-cases, ℕ, ◌+◌, ◌-◌, ◌*◌, ◌/◌, ◌%◌, ◌<◌, ◌≡◌, ◌∙◌, refl,
  arith, Bool, not, ◌&&◌, if◌then◌else◌, Option, none, some, List, [], ◌∷◌, ◌++◌, bit_and, bit_or,
  ◌==◌,
}
use rust_baremetal.Prelude.Word.{word_mod}
use rust_baremetal.Prelude.Bits.{
  bit_and_field, bit_and_mask, bit_and-half, bit_or-half, bit_or-zero,
}
use rust_baremetal.Hart.{
  interrupt_read, Hart, interrupt_on, interrupt_off, after_push, push_interrupt_off,
  pop_interrupt_off,
}

-- Whether the bit is set, as arithmetic.
abbrev pub is_on : ℕ → Bool
is_on s = not (s / 2 % 2 == 0)

sie_read : (s : ℕ) → bit_and s 2 ≡ s / 2 % 2 * 2
sie_read s = bit_and_field 1 1 s

sie_set : (s : ℕ) → bit_or s 2 ≡ s / 4 * 4 + 2 + s % 2
sie_set s = omega (arith, bit_or-half s 2, bit_or-half (s / 2) 1, bit_or-zero (s / 2 / 2))

pub sie_clear : (s : ℕ) → s < word_mod → bit_and s 4294967293 ≡ s / 4 * 4 + s % 2
sie_clear s h =
    omega (
      arith,
      bit_and-half s 4294967293,
      bit_and-half (s / 2) 2147483646,
      bit_and_mask 30 (s / 2 / 2),
    )

-- The word is 32 bits wide, and interrupts are off while any lock is held.
pub record IsHart (h : Hart) : Type 0 where
  pub word : h.sstatus < word_mod
  pub held_off : 0 < h.interrupt_off_stack → h.sstatus / 2 % 2 ≡ 0

pub data Op : Type 0 where
  push pop : Op

abbrev bind : Option Hart → (Hart → Option Hart) → Option Hart
bind none k = none
bind (some h) k = k h

-- A run of pushes and pops; `none` is the panic.
unfoldable pub run : List Op → Hart → Option Hart
run [] h = some h
run (push ∷ ops) h = elim (push_interrupt_off h) [ none ↦ none | some h' ↦ run ops h' ]
run (pop ∷ ops) h = elim (pop_interrupt_off h) [ none ↦ none | some h' ↦ run ops h' ]

-- Each push has its pop behind it.
pub data Balanced : List Op → Type 0 where
  done : Balanced []
  wrap : {xs ys : List Op} → Balanced xs → Balanced ys → Balanced (push ∷ (xs ++ pop ∷ ys))

-- The largest number of pushes that are open at once.
unfoldable pub deepest : {ops : List Op} → Balanced ops → ℕ
deepest done = 0
deepest (wrap b c) =
    let inner = deepest b + 1 in let rest = deepest c in if ltb inner rest then rest else inner

-- `h'` is `h` again, as far as a caller can tell.
pub record Restored (h h' : Hart) : Type 0 where
  pub depth : h'.interrupt_off_stack ≡ h.interrupt_off_stack
  pub word : h'.sstatus ≡ h.sstatus
  pub prev : 0 < h.interrupt_off_stack → h'.interrupt_prev_state ≡ h.interrupt_prev_state

-- What a push leaves.
record Pushed (h h' : Hart) : Type 0 where
  depth : h'.interrupt_off_stack ≡ h.interrupt_off_stack + 1
  word : h'.sstatus ≡ h.sstatus / 4 * 4 + h.sstatus % 2
  outer : h.interrupt_off_stack ≡ 0 → h'.interrupt_prev_state ≡ is_on h.sstatus
  inner : 0 < h.interrupt_off_stack → h'.interrupt_prev_state ≡ h.interrupt_prev_state

push-Pushed : (h : Hart) → IsHart h → Pushed h (after_push h)
unfolding after_push
push-Pushed h w = ground (arith, sie_clear h.sstatus, sie_read h.sstatus)

-- The state that a pop returns where it does not panic.
abbrev pub after_pop : Hart → Hart
after_pop g =
    let h = record g { interrupt_off_stack = g.interrupt_off_stack - 1 } in
    if (h.interrupt_off_stack == 0) && h.interrupt_prev_state then interrupt_on h else h

pub pop-push :
    (h g : Hart)
    → IsHart h
    → Restored (after_push h) g
    → (h' : Hart) × (pop_interrupt_off g ≡ some h') × Restored h h'
unfolding pop_interrupt_off interrupt_on
pop-push h g w back =
    let pushed = push-Pushed h w in
    (
      after_pop g,
      ground (arith, pushed),
      record {
        depth = ground (arith, pushed);
        word = ground (arith, pushed, sie_set g.sstatus);
        prev = ground (arith, pushed);
      },
    )

run-append : (xs ys : List Op) (h : Hart) → run (xs ++ ys) h ≡ bind (run xs h) (run ys)
unfolding run
run-append [] ys h = refl
run-append (push ∷ xs) ys h =
    elim (push_interrupt_off h)
      as (λ o.
        ◌≡◌ {A = Option Hart} (elim o [ none ↦ none | some h' ↦ run (xs ++ ys) h' ])
          (bind (elim o [ none ↦ none | some h' ↦ run xs h' ]) (run ys))) [
            | none ↦ refl
            | some h' ↦ run-append xs ys h'
          ]
run-append (pop ∷ xs) ys h =
    elim (pop_interrupt_off h)
      as (λ o.
        ◌≡◌ {A = Option Hart} (elim o [ none ↦ none | some h' ↦ run (xs ++ ys) h' ])
          (bind (elim o [ none ↦ none | some h' ↦ run xs h' ]) (run ys))) [
            | none ↦ refl
            | some h' ↦ run-append xs ys h'
          ]

push-room :
    (h : Hart) → h.interrupt_off_stack + 1 < word_mod → push_interrupt_off h ≡ some (after_push h)
unfolding push_interrupt_off
push-room h room =
    let fits : ltb (h.interrupt_off_stack + 1) word_mod ≡ true = ground (arith, room) in
    rw fits refl

push-full : (h : Hart) → word_mod ≤ h.interrupt_off_stack + 1 → push_interrupt_off h ≡ none
unfolding push_interrupt_off
push-full h full =
    let over : ltb (h.interrupt_off_stack + 1) word_mod ≡ false = ground (arith, full) in
    rw over refl

-- A push, and a push without room.
run-push :
    (ops : List Op) (h : Hart)
    → h.interrupt_off_stack + 1 < word_mod
    → run (push ∷ ops) h ≡ run ops (after_push h)
unfolding run
run-push ops h room =
    let pushed : push_interrupt_off h ≡ some (after_push h) = push-room h room in
    rw (pushed, run) refl

run-push_full :
    (ops : List Op) (h : Hart) → word_mod ≤ h.interrupt_off_stack + 1 → run (push ∷ ops) h ≡ none
unfolding run
run-push_full ops h full =
    let fails : push_interrupt_off h ≡ none = push-full h full in rw (fails, run) refl

-- The pop that ends an inner run.
run-pop :
    (ops : List Op) (g : Hart) {k : Hart}
    → pop_interrupt_off g ≡ some k
    → run (pop ∷ ops) g ≡ run ops k
unfolding run
run-pop ops g {k} e = rw (e, run) refl

pub Restored-IsHart : {h h' : Hart} → IsHart h → Restored h h' → IsHart h'
Restored-IsHart w r = ground arith

-- Interrupts are off and the word is still one after a push.
pub push-IsHart : (h : Hart) → IsHart h → IsHart (after_push h)
push-IsHart h w = ground (arith, push-Pushed h w)

pub Restored-refl : (h : Hart) → Restored h h
Restored-refl h = record { depth = refl; word = refl; prev = λ _. refl }

pub Restored-trans : {h g k : Hart} → Restored h g → Restored g k → Restored h k
Restored-trans a b = ground arith

room_or_full :
    (h : Hart) → (h.interrupt_off_stack + 1 < word_mod) ⊎ (word_mod ≤ h.interrupt_off_stack + 1)
room_or_full h = elim (Bool-cases (ltb (h.interrupt_off_stack + 1) word_mod)) [
  | inl room ↦ inl (grind (arith, room))
  | inr full ↦ inr (grind (arith, full))
]

-- How a balanced run ends.
abbrev pub Nested : {ops : List Op} → Hart → Balanced ops → Type 0
Nested {ops} h b =
    (h.interrupt_off_stack + deepest b < word_mod)
      × ((h' : Hart) × (run ops h ≡ some h') × Restored h h')
    ⊎ (word_mod ≤ h.interrupt_off_stack + deepest b) × (run ops h ≡ none)

-- A balanced run of pushes and pops, from a counter that is a `usize`: where the counter has room for
-- the pushes that are open at once, it does not panic, and gives `sstatus`, the depth and, below
-- another lock, the saved interrupt state back; where it has not, it panics.
pub run-Balanced :
    {ops : List Op} (h : Hart) (b : Balanced ops)
    → IsHart h
    → h.interrupt_off_stack < word_mod
    → Nested h b
unfolding run deepest
run-Balanced h done w fits =
    inl (omega arith, (h, refl, record { depth = refl; word = refl; prev = λ _. refl }))
run-Balanced h (wrap {xs} {ys} b c) w fits = elim (room_or_full h) [
  | inr full ↦ inr (ground (arith, full), run-push_full (xs ++ pop ∷ ys) h full)
  | inl room ↦
      let pushed = push-Pushed h w in
      let started = run-push (xs ++ pop ∷ ys) h room ∙ run-append xs (pop ∷ ys) (after_push h) in
      elim (run-Balanced (after_push h) b (push-IsHart h w) (omega (arith, pushed.depth, room))) [
        | inr (deep, stops) ↦ inr (ground (arith, pushed.depth), started ∙ rw stops refl)
        | inl (low, (g, ran, back)) ↦
            let (k, popped, same) = pop-push h g w back in
            let resumed = started ∙ (rw ran refl ∙ run-pop ys g popped) in
            elim (run-Balanced k c (Restored-IsHart w same) (omega (arith, same.depth, fits))) [
              | inl (rest_low, (h', rest, last)) ↦ inl (
                ground (arith, pushed.depth, same.depth),
                (h', resumed ∙ rest, Restored-trans same last),
              )
              | inr (deep, stops) ↦ inr (ground (arith, same.depth), resumed ∙ stops)
            ]
      ]
]

-- A push is never followed by an empty stack.
pub pop_after_push : (h : Hart) → pop_interrupt_off (after_push h) ≡ some (after_pop (after_push h))
unfolding after_push pop_interrupt_off
pop_after_push h = ground arith

-- A lock that is taken and released.
pub push_then_pop :
    (h : Hart)
    → IsHart h
    → (h' : Hart) × (pop_interrupt_off (after_push h) ≡ some h') × Restored h h'
push_then_pop h w =
    pop-push h (after_push h) w (record { depth = refl; word = refl; prev = λ _. refl })

-- Under one lock, interrupts read as off.
pub interrupt_read-off :
    (h g : Hart)
    → IsHart h
    → Restored (after_push h) g
    → (interrupt_read g ≡ false) × (g.interrupt_off_stack ≡ h.interrupt_off_stack + 1)
unfolding interrupt_read
interrupt_read-off h g w back = ground (arith, push-Pushed h w, sie_read g.sstatus)

-- Interrupts let through between two rounds of the scheduler.
pub window-IsHart : (h : Hart) → IsHart h → IsHart (interrupt_off (interrupt_on h))
unfolding interrupt_off interrupt_on
window-IsHart h w =
    let on = sie_set h.sstatus in
    let fits : bit_or h.sstatus 2 < word_mod = omega (arith, on, w.word) in
    let off = sie_clear (bit_or h.sstatus 2) fits in
    record { word = omega (arith, off, fits); held_off = λ d. omega (arith, off) }
