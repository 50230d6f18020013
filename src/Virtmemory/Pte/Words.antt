-- ===== src/Virtmemory/Pte/Words.antt =====
-- The words for `satp` and for physical addresses.
use rust_baremetal.Prelude.{ℕ, ◌+◌, ◌*◌, ◌/◌, ◌%◌, ◌<◌, ◌≡◌, ◌∙◌, arith, bit_or}
use rust_baremetal.Prelude.Word.{word_mod, ◌<<◌}
use rust_baremetal.Prelude.Bits.{bit_or_add}
use rust_baremetal.Virtmemory.Pte.{Satp, satp_word, va_from, Pa, pa_word}
use rust_baremetal.Virtmemory.Pte.Codec.{va_from_fields}

zero_or : (x : ℕ) → x < word_mod → bit_or 0 x ≡ x
zero_or x h = bit_or_add 32 0 x (omega arith) h ∙ omega arith

-- The fields of `satp` do not meet: 1 bit of mode, 9 bits of address space, 22 bits of page number.
pub satp_word_sum :
    (val : Satp)
    → val.mode < 2
    → val.asid < 512
    → val.ppn < 4194304
    → satp_word val ≡ val.mode * 2147483648 + val.asid * 4194304 + val.ppn
unfolding satp_word
satp_word_sum val m a p = rw (zero_or (val.mode << 31) (omega arith)) (
    rw (bit_or_add 31 (val.mode << 31) (val.asid << 22) (omega arith) (omega arith)) (
      rw (bit_or_add 22 ((val.mode << 31) + (val.asid << 22)) val.ppn (omega arith) (omega arith))
        (omega arith)))

-- A virtual address taken apart and put together with the numbers of another page is the address of
-- that page with the same offset; with its own, it is the address itself.
pub pa_word_sum :
    (pa : Pa)
    → pa.ppn1 < 1024
    → pa.ppn0 < 1024
    → pa.offset < 4096
    → pa_word pa ≡ (pa.ppn1 * 1024 + pa.ppn0) * 4096 + pa.offset
unfolding pa_word
pa_word_sum pa i j k =
    rw (bit_or_add 22 (pa.ppn1 << 22) (pa.ppn0 << 12) (omega arith) (omega arith)) (
      rw (bit_or_add 12 ((pa.ppn1 << 22) + (pa.ppn0 << 12)) pa.offset (omega arith) (omega arith))
        (omega arith))

-- The words of a virtual address, put together as a physical address, give the address back.
pub pa_word-va_from :
    (a : ℕ)
    → a < word_mod
    → pa_word (record { ppn1 = (va_from a).vpn1; ppn0 = (va_from a).vpn0; offset = a % 4096 }) ≡ a
pa_word-va_from a h =
    let (hi, lo) = va_from_fields a h in
    rw
      (
        hi,
        lo,
        pa_word_sum (record { ppn1 = a / 4194304; ppn0 = a / 4096 % 1024; offset = a % 4096 })
            (omega arith) (omega arith) (omega arith),
      )
      (omega arith)
