-- ===== src/Uart.antt =====
-- kernel/src/uart.rs: output to the serial port, and the writer with a fixed buffer that traps use.
-- What has been sent to the port is a list of bytes, in the order of the writes.
pub mod Writer
mod Tests
use rust_baremetal.Prelude.{ℕ, zero, suc, ◌+◌, List, [], ◌∷◌, ◌++◌, ltb, set, if◌then◌else◌}

-- `write_volatile` to the port.
abbrev pub send : ℕ → List ℕ → List ℕ
send b sent = sent ++ b ∷ []

pub uart_print : List ℕ → List ℕ → List ℕ
uart_print [] sent = sent
uart_print (c ∷ cs) sent = uart_print cs (send c sent)

pub record UartWriter : Type 0 where
  pub buf : List ℕ
  pub pos : ℕ

abbrev pub replicate : ℕ → ℕ → List ℕ
replicate zero x = []
replicate (suc n) x = x ∷ replicate n x

-- `buf.len()`
abbrev pub buf_len : ℕ
buf_len = 256

unfoldable pub new : UartWriter
new = record { buf = replicate 256 0; pos = 0 }

-- The loop of `write_str`.
pub write_str : List ℕ → UartWriter → UartWriter
write_str [] w = w
write_str (b ∷ bs) w =
    write_str bs
      (if ltb w.pos buf_len then record { buf = set w.buf w.pos b; pos = w.pos + 1 } else w)

-- `&buf[..pos]`
abbrev pub take : ℕ → List ℕ → List ℕ
take zero xs = []
take (suc n) [] = []
take (suc n) (x ∷ xs) = x ∷ take n xs

pub flush : UartWriter → List ℕ → List ℕ
unfolding uart_print
flush w sent = uart_print (take w.pos w.buf) sent
