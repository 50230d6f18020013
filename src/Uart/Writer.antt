-- ===== src/Uart/Writer.antt =====
-- The writer keeps the first 256 bytes that it is given.
use rust_baremetal.Prelude.{
  ℕ, zero, suc, ◌+◌, ◌≤◌, ◌<◌, ◌≡◌, ◌∙◌, inl, inr, refl, sym, ap, arith, List, [], ◌∷◌, ◌++◌,
  Bool-cases, false, ltb, set, length,
}
use mathlib.Core.List.{append_assoc, append-nil}
use native.Mathlib.Numerals.{add-one}
use rust_baremetal.Uart.{uart_print, UartWriter, new, write_str, flush, take, buf_len}

-- The buffer has its length, and the writer stays in it.
pub record IsWriter (w : UartWriter) : Type 0 where
  pub size : length w.buf ≡ 256
  pub within : w.pos ≤ 256

-- What the writer holds.
abbrev pub held : UartWriter → List ℕ
held w = take w.pos w.buf

length-set : (xs : List ℕ) (i v : ℕ) → length (set xs i v) ≡ length xs
length-set [] i v = refl
length-set (x ∷ xs) zero v = refl
length-set (x ∷ xs) (suc i) v = ap suc (length-set xs i v)

take-set : (xs : List ℕ) (i v : ℕ) → i < length xs → take (suc i) (set xs i v) ≡ take i xs ++ v ∷ []
take-set [] i v h = absurd (omega arith)
take-set (x ∷ xs) zero v h = refl
take-set (x ∷ xs) (suc i) v h = ap (λ ys. x ∷ ys) (take-set xs i v (omega arith))

take-append_short : (n : ℕ) (xs ys : List ℕ) → n ≤ length xs → take n (xs ++ ys) ≡ take n xs
take-append_short zero xs ys h = refl
take-append_short (suc n) [] ys h = absurd (omega arith)
take-append_short (suc n) (x ∷ xs) ys h =
    ap (λ zs. x ∷ zs) (take-append_short n xs ys (omega arith))

length-take : (n : ℕ) (xs : List ℕ) → n ≤ length xs → length (take n xs) ≡ n
length-take zero xs h = refl
length-take (suc n) [] h = absurd (omega arith)
length-take (suc n) (x ∷ xs) h = ap suc (length-take n xs (omega arith))

take_all : (n : ℕ) (xs : List ℕ) → length xs ≤ n → take n xs ≡ xs
take_all zero [] h = refl
take_all zero (x ∷ xs) h = absurd (omega arith)
take_all (suc n) [] h = refl
take_all (suc n) (x ∷ xs) h = ap (λ ys. x ∷ ys) (take_all n xs (omega arith))

pub uart_print-append : (xs sent : List ℕ) → uart_print xs sent ≡ sent ++ xs
unfolding uart_print
uart_print-append [] sent = sym (append-nil sent)
uart_print-append (x ∷ xs) sent =
    uart_print-append xs (sent ++ x ∷ []) ∙ append_assoc sent (x ∷ []) xs

ltb_full : (n : ℕ) → ltb n buf_len ≡ false → 256 ≤ n
ltb_full n h = ground arith

pub new-IsWriter : IsWriter new
unfolding new
new-IsWriter = record { size = refl; within = omega arith }

-- What the writer holds after a string, and that it is still well formed.
pub record Wrote (w : UartWriter) (s : List ℕ) (w' : UartWriter) : Type 0 where
  pub is_writer : IsWriter w'
  pub holds : held w' ≡ take 256 (held w ++ s)

-- `write_str` never leaves the buffer: it keeps what it held, then the string, cut at 256 bytes.
pub write_str-Wrote : (s : List ℕ) (w : UartWriter) → IsWriter w → Wrote w s (write_str s w)
unfolding write_str
write_str-Wrote [] w ok = record {
  is_writer = ok;
  holds = sym (
      ap (take 256) (append-nil (held w))
      ∙ take_all 256 (held w) (omega (arith, length-take w.pos w.buf (omega arith))));
}
write_str-Wrote (b ∷ bs) w ok = elim (Bool-cases (ltb w.pos buf_len)) [
  | inl room ↦
      let w' : UartWriter = record { buf = set w.buf w.pos b; pos = w.pos + 1 } in
      let in_buf : w.pos < 256 = ground (arith, room) in
      let ok' : IsWriter w' = record {
        size = length-set w.buf w.pos b ∙ ok.size;
        within = omega arith;
      } in
      let next = write_str-Wrote bs w' ok' in
      let one : held w' ≡ held w ++ b ∷ [] = rw add-one (take-set w.buf w.pos b (omega arith)) in
      rw room (record {
        is_writer = next.is_writer;
        holds =
            next.holds
            ∙ ap (take 256) (ap (λ xs. xs ++ bs) one ∙ append_assoc (held w) (b ∷ []) bs);
      })
  | inr full ↦
      let all : 256 ≤ length (held w) =
        omega (arith, length-take w.pos w.buf (omega arith), ltb_full w.pos full) in
      let next = write_str-Wrote bs w ok in
      rw full (record {
        is_writer = next.is_writer;
        holds =
            next.holds
            ∙ (take-append_short 256 (held w) bs all
                ∙ sym (take-append_short 256 (held w) (b ∷ bs) all));
      })
]

take-take_append : (n : ℕ) (xs ys : List ℕ) → take n (take n xs ++ ys) ≡ take n (xs ++ ys)
take-take_append zero xs ys = refl
take-take_append (suc n) [] ys = refl
take-take_append (suc n) (x ∷ xs) ys = ap (λ zs. x ∷ zs) (take-take_append n xs ys)

-- The pieces of a formatted text, one `write_str` for each.
abbrev pub write_all : List (List ℕ) → UartWriter → UartWriter
write_all [] w = w
write_all (s ∷ ss) w = write_all ss (write_str s w)

abbrev pub joined : List (List ℕ) → List ℕ
joined [] = []
joined (s ∷ ss) = s ++ joined ss

write_all-Wrote :
    (ss : List (List ℕ)) (w : UartWriter) → IsWriter w → Wrote w (joined ss) (write_all ss w)
unfolding write_str
write_all-Wrote [] w ok = write_str-Wrote [] w ok
write_all-Wrote (s ∷ ss) w ok =
    let first = write_str-Wrote s w ok in
    let rest = write_all-Wrote ss (write_str s w) first.is_writer in
    record {
      is_writer = rest.is_writer;
      holds =
          rest.holds
          ∙ (ap (λ xs. take 256 (xs ++ joined ss)) first.holds
              ∙ (take-take_append 256 (held w ++ s) (joined ss)
                  ∙ ap (take 256) (append_assoc (held w) s (joined ss))));
    }

-- A text that is written to a new writer in any number of pieces, and flushed, is sent in order,
-- cut at 256 bytes.
pub flush-write_all :
    (ss : List (List ℕ)) (sent : List ℕ)
    → flush (write_all ss new) sent ≡ sent ++ take 256 (joined ss)
unfolding flush new
flush-write_all ss sent =
    uart_print-append (held (write_all ss new)) sent
    ∙ ap (λ xs. sent ++ xs) (write_all-Wrote ss new new-IsWriter).holds
