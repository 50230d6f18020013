-- ===== src/Machine/Memory.antt =====
-- Physical memory: a byte at each address, and little-endian words of 32 bits.
use rust_baremetal.Prelude.{
  ℕ, ◌+◌, ◌-◌, ◌*◌, ◌/◌, ◌%◌, ◌≤◌, ◌<◌, ◌≡◌, ◌⊎◌, arith, ltb, leb, ◌==◌, ◌&&◌, if◌then◌else◌,
}
use rust_baremetal.Prelude.Word.{word_mod}

-- A cell holds the byte `m a % 256`.
abbrev pub Mem : Type 0
Mem = ℕ → ℕ

unfoldable pub read_word : Mem → ℕ → ℕ
read_word m p =
    m p % 256 + m (p + 1) % 256 * 256 + m (p + 2) % 256 * 65536 + m (p + 3) % 256 * 16777216

unfoldable pub write_word : Mem → ℕ → ℕ → Mem
write_word m p v a =
    if a == p
    then v % 256
    else if a == p + 1
    then v / 256 % 256
    else if a == p + 2
    then v / 65536 % 256
    else if a == p + 3
    then v / 16777216 % 256
    else m a

unfoldable pub write_zeros : Mem → ℕ → ℕ → Mem
write_zeros m p n a = if leb p a && ltb a (p + n) then 0 else m a

unfoldable pub write_byte : Mem → ℕ → ℕ → Mem
write_byte m p v a = if a == p then v % 256 else m a

-- `copy_nonoverlapping` of `n` bytes from `p` to `q`.
unfoldable pub copy_bytes : Mem → ℕ → ℕ → ℕ → Mem
copy_bytes m p q n a = if leb q a && ltb a (q + n) then m (p + (a - q)) else m a

-- Two ranges of bytes that do not meet.
abbrev pub Separate : ℕ → ℕ → ℕ → ℕ → Type 0
Separate p n q k = (p + n ≤ q) ⊎ (q + k ≤ p)

pub read_word-lt : (m : Mem) (p : ℕ) → read_word m p < word_mod
unfolding read_word
read_word-lt m p = omega arith

pub read-write_self : (m : Mem) (p v : ℕ) → v < word_mod → read_word (write_word m p v) p ≡ v
unfolding read_word write_word
read-write_self m p v h = ground arith

pub read-write_apart :
    (m : Mem) (p q v : ℕ) → Separate p 4 q 4 → read_word (write_word m p v) q ≡ read_word m q
unfolding read_word write_word
read-write_apart m p q v h = ground arith

pub write_word_apart : (m : Mem) (p a v : ℕ) → Separate p 4 a 1 → write_word m p v a ≡ m a
unfolding write_word
write_word_apart m p a v h = ground arith

pub read-zeros_inside :
    (m : Mem) (p n q : ℕ) → p ≤ q → q + 4 ≤ p + n → read_word (write_zeros m p n) q ≡ 0
unfolding read_word write_zeros
read-zeros_inside m p n q h k = ground arith

pub write_zeros_apart : (m : Mem) (p n a : ℕ) → Separate p n a 1 → write_zeros m p n a ≡ m a
unfolding write_zeros
write_zeros_apart m p n a h = ground arith

-- A word is its four bytes.
pub read_word_cong :
    (m g : Mem) (p : ℕ) → ((a : ℕ) → p ≤ a → a < p + 4 → g a ≡ m a) → read_word g p ≡ read_word m p
unfolding read_word
read_word_cong m g p same = ground (
  arith,
  same p (omega arith) (omega arith),
  same (p + 1) (omega arith) (omega arith),
  same (p + 2) (omega arith) (omega arith),
  same (p + 3) (omega arith) (omega arith),
)

pub read-zeros_apart :
    (m : Mem) (p n q : ℕ) → Separate p n q 4 → read_word (write_zeros m p n) q ≡ read_word m q
read-zeros_apart m p n q h =
    read_word_cong m (write_zeros m p n) q (λ a lo hi. write_zeros_apart m p n a (ground arith))
