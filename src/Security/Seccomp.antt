-- ===== src/Security/Seccomp.antt =====
-- kernel/security/seccomp.c: filter programs for the classic packet filter machine, and the check of
-- a system call against a process's chain of filters.
pub mod Run
mod Tests
pub mod Chain
use rucix_kernel.Common.{
  ℕ, zero, suc, ◌+◌, ◌-◌, ◌*◌, ◌/◌, ◌%◌, ◌^◌, Bool, true, false, not, Option, none, some, List, [],
  ◌∷◌, ltb, leb, ◌==◌, if◌then◌else◌, get_elem?, length, bit_and, bit_or, bit_xor,
}

-- `struct sock_filter`
pub record Inst : Type 0 where
  pub code : ℕ
  pub jt : ℕ
  pub jf : ℕ
  pub k : ℕ

-- The cases of the switch over `inst->code`.
pub data Opcode : Type 0 where
  ld_abs ret_k ret_a add_k sub_k mul_k div_k and_k or_k xor_k lsh_k rsh_k neg ld_imm tax txa :
      Opcode
  ja jeq jgt jge jset unknown : Opcode

abbrev code_table : List (ℕ × Opcode)
code_table =
    (0x20, ld_abs)
    ∷ (0x06, ret_k)
    ∷ (0x16, ret_a)
    ∷ (0x04, add_k)
    ∷ (0x14, sub_k)
    ∷ (0x24, mul_k)
    ∷ (0x34, div_k)
    ∷ (0x54, and_k)
    ∷ (0x44, or_k)
    ∷ (0xa4, xor_k)
    ∷ (0x64, lsh_k)
    ∷ (0x74, rsh_k)
    ∷ (0x84, neg)
    ∷ (0x00, ld_imm)
    ∷ (0x07, tax)
    ∷ (0x87, txa)
    ∷ (0x05, ja)
    ∷ (0x15, jeq)
    ∷ (0x25, jgt)
    ∷ (0x35, jge)
    ∷ (0x45, jset)
    ∷ []

find_code : List (ℕ × Opcode) → ℕ → Opcode
find_code [] c = unknown
find_code ((d, op) ∷ t) c = if c == d then op else find_code t c

unfoldable pub decode : ℕ → Opcode
unfolding find_code
decode c = find_code code_table c

abbrev pub ret_kill : ℕ
ret_kill = 0

abbrev pub ret_allow : ℕ
ret_allow = 0x7fff_0000

abbrev pub ret_action : ℕ
ret_action = 0x7fff_0000

abbrev pub u32 : ℕ → ℕ
u32 x = x % 2 ^ 32

-- The registers `A`, `X` and `pc`. `pc` is the bit pattern of an `int`.
pub record Machine : Type 0 where
  pub acc : ℕ
  pub idx : ℕ
  pub pc : ℕ

-- What one instruction does: it goes on, it returns a value, or the C code's behaviour is undefined
-- (a shift by 32 or more).
pub data Effect : Type 0 where
  goes : Machine → Effect
  stops : ℕ → Effect
  undefined : Effect

-- `*(uint32_t*)((uint8_t*)sd + k)`, the bytes of `sd` and of what lies behind it
unfoldable pub load32 : (ℕ → ℕ) → ℕ → ℕ
load32 sd k = sd k + 2 ^ 8 * sd (k + 1) + 2 ^ 16 * sd (k + 2) + 2 ^ 24 * sd (k + 3)

-- `sizeof(struct seccomp_data)`
abbrev pub data_size : ℕ
data_size = 64

abbrev pub set_acc : Machine → ℕ → Effect
set_acc m a = goes (record m { acc = a; pc = u32 (m.pc + 1) })

-- `pc += offset`, and the `pc++` of the loop
abbrev pub jump : Machine → ℕ → Effect
jump m offset = goes (record m { pc = u32 (m.pc + offset + 1) })

abbrev pub branch : Machine → Inst → Bool → Effect
branch m i taken = jump m (if taken then i.jt else i.jf)

-- The body of the loop, with the `pc++` behind it.
unfoldable pub execute : (ℕ → ℕ) → Inst → Machine → Opcode → Effect
execute sd i m ld_abs = if ltb i.k data_size then set_acc m (load32 sd i.k) else stops ret_kill
execute sd i m ret_k = stops i.k
execute sd i m ret_a = stops m.acc
execute sd i m add_k = set_acc m (u32 (m.acc + i.k))
execute sd i m sub_k = set_acc m (u32 (m.acc + 2 ^ 32 - i.k))
execute sd i m mul_k = set_acc m (u32 (m.acc * i.k))
execute sd i m div_k = set_acc m (if i.k == 0 then 0 else m.acc / i.k)
execute sd i m and_k = set_acc m (bit_and m.acc i.k)
execute sd i m or_k = set_acc m (bit_or m.acc i.k)
execute sd i m xor_k = set_acc m (bit_xor m.acc i.k)
execute sd i m lsh_k = if ltb i.k 32 then set_acc m (u32 (m.acc * 2 ^ i.k)) else undefined
execute sd i m rsh_k = if ltb i.k 32 then set_acc m (m.acc / 2 ^ i.k) else undefined
execute sd i m neg = set_acc m (u32 (2 ^ 32 - m.acc))
execute sd i m ld_imm = set_acc m i.k
execute sd i m tax = goes (record m { idx = m.acc; pc = u32 (m.pc + 1) })
execute sd i m txa = set_acc m m.idx
execute sd i m ja = jump m i.k
execute sd i m jeq = branch m i (m.acc == i.k)
execute sd i m jgt = branch m i (ltb i.k m.acc)
execute sd i m jge = branch m i (leb i.k m.acc)
execute sd i m jset = branch m i (not (bit_and m.acc i.k == 0))
execute sd i m unknown = stops ret_kill

-- How a run of a filter ends. `outside` is a read of an instruction outside the program.
pub data Verdict : Type 0 where
  returned : ℕ → Verdict
  outside : Verdict
  undefined_shift : Verdict
  out_of_fuel : Verdict

-- `pc < fprog->len`, a comparison of signed integers: the patterns from 2^31 on are negative.
abbrev pub below_len : ℕ → ℕ → Bool
below_len pc len = if leb (2 ^ 31) pc then true else ltb pc len

unfoldable pub run_filter : ℕ → List Inst → (ℕ → ℕ) → Machine → Verdict
run_filter zero prog sd m = out_of_fuel
run_filter (suc fuel) prog sd m =
    let next : Verdict = elim (get_elem? prog m.pc) [
      | none ↦ outside
      | some i ↦ elim (execute sd i m (decode i.code)) [
        | goes m' ↦ run_filter fuel prog sd m'
        | stops r ↦ returned r
        | undefined ↦ undefined_shift
      ]
    ] in
    if below_len m.pc (length prog) then next else returned ret_kill

abbrev pub start : Machine
start = record { acc = 0; idx = 0; pc = 0 }

-- The loop over the chain of filters in `seccomp_check_syscall`, the newest first: whether the call
-- is let through. `none` is a run that does not return a value.
unfoldable pub check_filters : ℕ → (ℕ → ℕ) → List (List Inst) → Option Bool
check_filters fuel sd [] = some true
check_filters fuel sd (f ∷ fs) = elim (run_filter fuel f sd start) [
  | returned r ↦
      let rest = check_filters fuel sd fs in
      if bit_and r ret_action == ret_allow then rest else some false
  | outside ↦ none
  | undefined_shift ↦ none
  | out_of_fuel ↦ none
]
