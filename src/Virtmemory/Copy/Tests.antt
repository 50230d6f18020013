-- ===== src/Virtmemory/Copy/Tests.antt =====
-- Copies to and from the page of a program.
use rust_baremetal.Prelude.{ℕ, ◌≡◌, refl, arith, Bool, true, List, [], ◌∷◌, if◌then◌else◌, ltb}
use rust_baremetal.Machine.{Machine}
use rust_baremetal.Machine.Bitmap.{bitmap}
use rust_baremetal.Machine.Outcome.{done, err}
use rust_baremetal.Machine.Memory.{write_byte}
use rust_baremetal.Virtmemory.PageTable.Map.{put, Shows}
use rust_baremetal.Virtmemory.UserSpace.{user_space, user_space-Shows, user_page-IsOwned}
use rust_baremetal.Virtmemory.Copy.{walkaddr, copy_in_str}
use rust_baremetal.Virtmemory.Copy.Translate.{translated, walkaddr-translated}
use rust_baremetal.Virtmemory.Copy.Bytes.{put_bytes}
use rust_baremetal.Virtmemory.Copy.UserBytes.{user_byte, user_bytes}
use rust_baremetal.Virtmemory.Copy.Roundtrip.{copied-Shows, copy_in_str-bytes}

abbrev one_page : ℕ → ℕ
one_page = put (λ _. 0) 0x10000 0x200c3417

abbrev word : List ℕ
word = 0x69 ∷ 0x6e ∷ 0x69 ∷ 0x74 ∷ []

walkaddr-translated_example :
    walkaddr bitmap 0x8030f000 0x10ff8 user_space
    ≡ done (translated (one_page 0x10ff8) 0x10ff8) user_space
walkaddr-translated_example =
    walkaddr-translated bitmap user_space 0x10ff8 one_page user_space-Shows (omega arith)

abbrev ascii : List ℕ → Bool
ascii [] = true
ascii (x ∷ xs) = ltb x 128

-- With a text in the page.
abbrev text_space : Machine bitmap
text_space = record user_space { mem = put_bytes user_space.mem 0x8030d020 (0x6f ∷ 0x6b ∷ 0 ∷ []) }

text_space-Shows : Shows bitmap 0x8030f000 one_page text_space
text_space-Shows =
    copied-Shows bitmap one_page user_page-IsOwned 0x8030d020 (0x6f ∷ 0x6b ∷ 0 ∷ []) (omega arith)
      (omega arith) user_space-Shows

text : user_bytes one_page text_space.mem 0x10020 2 ≡ 0x6f ∷ 0x6b ∷ []
unfolding user_bytes put_bytes write_byte
text = refl

end : user_byte one_page text_space.mem 0x10022 ≡ 0
unfolding put_bytes write_byte
end = refl

copy_in_str-bytes_example : copy_in_str bitmap ascii 16 0x8030f000 0x10020 text_space ≡ (
    if ascii (user_bytes one_page text_space.mem 0x10020 2)
    then done (user_bytes one_page text_space.mem 0x10020 2) text_space
    else err text_space)
copy_in_str-bytes_example =
    copy_in_str-bytes bitmap 0x8030f000 ascii one_page text_space 0x10020 2 16 text_space-Shows
      (omega arith) refl (omega arith) (omega arith) (rw text (omega arith)) end
