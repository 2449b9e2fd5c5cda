-- ===== src/Strings.antt =====
-- kernel/lib/string.c: blocks of memory and strings. The memory is a function from addresses to
-- bytes.
pub mod Blocks
pub mod Texts
pub mod Copies
mod Tests
use rucix_kernel.Common.{
  ℕ, zero, suc, ◌+◌, ◌-◌, ◌*◌, ◌/◌, ◌%◌, ◌^◌, Bool, true, false, ◌&&◌, ◌||◌, not, Option, none,
  some, List, [], ◌∷◌, bit_or, ltb, leb, ◌==◌, if◌then◌else◌,
}
use rucix_kernel.Common.Int.{ℤ, pos, sub_ℕ}
use rucix_kernel.Common.Chain.{update}

abbrev pub Mem : Type 0
Mem = ℕ → ℕ

-- `(uint8_t)value`
abbrev pub byte : ℕ → ℕ
byte v = v % 256

-- `val64 |= val64 << 8` and the two steps behind it: the byte eight times
unfoldable pub spread : ℕ → ℕ
spread v =
    let v16 = bit_or v (v * 2 ^ 8) in
    let v32 = bit_or v16 (v16 * 2 ^ 16) in bit_or v32 (v32 * 2 ^ 32)

-- `*p64 = v`, the low byte first
unfoldable pub store64 : Mem → ℕ → ℕ → Mem
store64 mem p v x = if leb p x && ltb x (p + 8) then v / 2 ^ (8 * (x - p)) % 256 else mem x

-- `*d64 = *s64`: eight bytes are read, and then written
unfoldable pub copy64 : Mem → ℕ → ℕ → Mem
copy64 mem d s x = if leb d x && ltb x (d + 8) then mem (s + (x - d)) else mem x

-- Where a loop of `memset` stops: the memory, the pointer and the bytes that are left.
pub record Filling : Type 0 where
  pub mem : Mem
  pub ptr : ℕ
  pub left : ℕ

-- `while ((uintptr_t)p8 & 0x7 && num > 0)`
unfoldable pub set_head : ℕ → Mem → ℕ → ℕ → Filling
set_head v mem p zero = record { mem = mem; ptr = p; left = 0 }
set_head v mem p (suc num) =
    let next = set_head v (update mem p v) (p + 1) num in
    if p % 8 == 0 then record { mem = mem; ptr = p; left = suc num } else next

-- `while (num >= 8)`, with fuel
unfoldable pub set_words : ℕ → ℕ → Mem → ℕ → ℕ → Filling
set_words zero v mem p num = record { mem = mem; ptr = p; left = num }
set_words (suc fuel) v mem p num =
    let next = set_words fuel v (store64 mem p (spread v)) (p + 8) (num - 8) in
    if leb 8 num then next else record { mem = mem; ptr = p; left = num }

-- `while (num--) *p8++ = value`
unfoldable pub set_bytes : ℕ → Mem → ℕ → ℕ → Mem
set_bytes v mem p zero = mem
set_bytes v mem p (suc num) = set_bytes v (update mem p v) (p + 1) num

unfoldable pub memset : Mem → ℕ → ℕ → ℕ → Mem
memset mem ptr value num =
    let head = set_head (byte value) mem ptr num in
    let words = set_words num (byte value) head.mem head.ptr head.left in
    set_bytes (byte value) words.mem words.ptr words.left

-- Where a loop of `memcpy` stops.
pub record Copying : Type 0 where
  pub mem : Mem
  pub dest : ℕ
  pub source : ℕ
  pub left : ℕ

-- `while (num--) *d8++ = *s8++`
unfoldable pub copy_bytes : Mem → ℕ → ℕ → ℕ → Mem
copy_bytes mem d s zero = mem
copy_bytes mem d s (suc num) = copy_bytes (update mem d (mem s)) (d + 1) (s + 1) num

-- `while ((uintptr_t)d8 & 0x7 && num > 0)`
unfoldable pub copy_head : Mem → ℕ → ℕ → ℕ → Copying
copy_head mem d s zero = record { mem = mem; dest = d; source = s; left = 0 }
copy_head mem d s (suc num) =
    let next = copy_head (update mem d (mem s)) (d + 1) (s + 1) num in
    if d % 8 == 0 then record { mem = mem; dest = d; source = s; left = suc num } else next

-- `while (num >= 8)`, with fuel
unfoldable pub copy_words : ℕ → Mem → ℕ → ℕ → ℕ → Copying
copy_words zero mem d s num = record { mem = mem; dest = d; source = s; left = num }
copy_words (suc fuel) mem d s num =
    let next = copy_words fuel (copy64 mem d s) (d + 8) (s + 8) (num - 8) in
    if leb 8 num then next else record { mem = mem; dest = d; source = s; left = num }

unfoldable pub memcpy : Mem → ℕ → ℕ → ℕ → Mem
memcpy mem dest src num =
    let head = copy_head mem dest src num in
    let words = copy_words num head.mem head.dest head.source head.left in
    if ltb num 8
    then copy_bytes mem dest src num
    else copy_bytes words.mem words.dest words.source words.left

unfoldable pub memcmp : Mem → ℕ → ℕ → ℕ → ℤ
memcmp mem p1 p2 zero = pos 0
memcmp mem p1 p2 (suc num) =
    let rest = memcmp mem (p1 + 1) (p2 + 1) num in
    if mem p1 == mem p2 then rest else sub_ℕ (mem p1) (mem p2)

-- `while (str[len]) len++`, with fuel
unfoldable pub strlen : ℕ → Mem → ℕ → ℕ → Option ℕ
strlen zero mem str len = none
strlen (suc fuel) mem str len =
    let rest = strlen fuel mem str (len + 1) in if mem (str + len) == 0 then some len else rest

-- `while (*s1 && (*s1 == *s2))`, with fuel
unfoldable pub strcmp : ℕ → Mem → ℕ → ℕ → Option ℤ
strcmp zero mem s1 s2 = none
strcmp (suc fuel) mem s1 s2 =
    let rest = strcmp fuel mem (s1 + 1) (s2 + 1) in
    if not (mem s1 == 0) && (mem s1 == mem s2) then rest else some (sub_ℕ (mem s1) (mem s2))

unfoldable pub strncmp : Mem → ℕ → ℕ → ℕ → ℤ
strncmp mem s1 s2 zero = pos 0
strncmp mem s1 s2 (suc n) =
    let rest = strncmp mem (s1 + 1) (s2 + 1) n in
    if not (mem s1 == 0) && (mem s1 == mem s2) then rest else sub_ℕ (mem s1) (mem s2)

-- `while ((*d++ = *src++))`, with fuel
unfoldable pub strcpy : ℕ → Mem → ℕ → ℕ → Option Mem
strcpy zero mem d s = none
strcpy (suc fuel) mem d s =
    let rest = strcpy fuel (update mem d (mem s)) (d + 1) (s + 1) in
    if mem s == 0 then some (update mem d (mem s)) else rest

-- `while (n > 0 && *src)`, and then zeros for the rest of `n`
unfoldable pub strncpy : Mem → ℕ → ℕ → ℕ → Mem
strncpy mem d s zero = mem
strncpy mem d s (suc n) =
    let rest = strncpy (update mem d (mem s)) (d + 1) (s + 1) n in
    if mem s == 0 then set_bytes 0 mem d (suc n) else rest

-- A byte from 128 on is a negative `char`, below 'A'.
unfoldable pub tolower : ℕ → ℕ
tolower c = if leb b'A' c && leb c b'Z' then c + 32 else c

-- `while (*s1 && (tolower(*s1) == tolower(*s2)))`, with fuel
unfoldable pub strcasecmp : ℕ → Mem → ℕ → ℕ → Option ℤ
strcasecmp zero mem s1 s2 = none
strcasecmp (suc fuel) mem s1 s2 =
    let rest = strcasecmp fuel mem (s1 + 1) (s2 + 1) in
    if not (mem s1 == 0) && (tolower (mem s1) == tolower (mem s2))
    then rest
    else some (sub_ℕ (tolower (mem s1)) (tolower (mem s2)))
