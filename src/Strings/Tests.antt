-- ===== src/Strings/Tests.antt =====
-- Runs of the string functions, and the theorems at concrete inputs.
use rucix_kernel.Common.{ℕ, ◌≡◌, ◌<◌, refl, inr, arith, List, [], ◌∷◌, some, if◌then◌else◌, ◌==◌}
use rucix_kernel.Common.Int.{pos}
use rucix_kernel.Strings.{Mem, memset, memcpy, memcmp, strcpy, strncpy}
use rucix_kernel.Strings.Blocks.{memset-filled, filled, memcpy-copied, copied}
use rucix_kernel.Strings.Texts.{Text}
use rucix_kernel.Strings.Copies.{strcpy-padded, padded}

-- "abc" at 16 and "aBd" at 24
abbrev page : Mem
page x =
    if x == 16
    then b'a'
    else if x == 17
    then b'b'
    else if x == 18
    then b'c'
    else if x == 24
    then b'a'
    else if x == 25
    then b'B'
    else if x == 26
    then b'd'
    else 0

abbrev abc : List ℕ
abc = b'a' ∷ b'b' ∷ b'c' ∷ []

abbrev a_b_d : List ℕ
a_b_d = b'a' ∷ b'B' ∷ b'd' ∷ []

abc-Text : Text page 16 abc
abc-Text = (refl, omega arith, (refl, omega arith, (refl, omega arith, refl)))

memcmp_run : memcmp page 16 24 4 ≡ pos 32
unfolding memcmp
memcmp_run = refl

memset-filled_example : memset page 13 263 20 ≡ filled page 13 7 20
memset-filled_example = memset-filled page 13 263 20

memcpy-copied_example : memcpy page 35 16 12 ≡ copied page 35 16 12
memcpy-copied_example = memcpy-copied page 35 16 12 (inr (omega arith))

strcpy-padded_example :
    ((m : Mem) × (strcpy 4 page 40 16 ≡ some m)
      × ((x : ℕ) → m x ≡ copied page 40 16 4 x)
      × Text m 40 abc)
    × ((x : ℕ) → strncpy page 40 16 2 x ≡ padded page 40 16 3 2 x)
    × (3 < 2 → Text (strncpy page 40 16 2) 40 abc)
strcpy-padded_example = strcpy-padded 4 page 40 16 2 abc abc-Text (inr (omega arith)) (omega arith)
