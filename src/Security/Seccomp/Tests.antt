-- ===== src/Security/Seccomp/Tests.antt =====
-- kernel/security/seccomp.c: runs on concrete programs.
use rucix_kernel.Common.{
  ℕ, zero, suc, ◌-◌, ◌^◌, ◌≡◌, refl, true, false, some, List, [], ◌∷◌, arith, drop,
}
use rucix_kernel.Security.Seccomp.{
  Inst, Machine, ja, returned, out_of_fuel, run_filter, start, check_filters, ret_allow, find_code,
  decode, execute, load32, ret_kill,
}
use rucix_kernel.Security.Seccomp.Run.{
  TameProgram, IsTame, tame_nil, tame_cons, run_filter-returns, run_filter_hangs,
}
use rucix_kernel.Security.Seccomp.Chain.{
  Checked, TameChain, chain_nil, chain_cons, check_filters-Checked, check_filters-append,
}

abbrev inst : ℕ → ℕ → ℕ → ℕ → Inst
inst c t f n = record { code = c; jt = t; jf = f; k = n }

-- Loads the number of the system call, lets number 1 through and kills at any other.
abbrev only_one : List Inst
only_one = inst 0x20 0 0 0 ∷ inst 0x15 0 1 1 ∷ inst 0x06 0 0 ret_allow ∷ inst 0x06 0 0 ret_kill ∷ []

-- The data of system call `n`, below 256.
abbrev call : ℕ → ℕ → ℕ
call n zero = n
call n (suc k) = 0

one_passes : run_filter 5 only_one (call 1) start ≡ returned ret_allow
unfolding run_filter execute decode find_code load32
one_passes = refl

two_is_killed : check_filters 5 (call 2) (only_one ∷ []) ≡ some false
unfolding check_filters run_filter execute decode find_code load32
two_is_killed = refl

abbrev let_through : List Inst
let_through = inst 0x06 0 0 ret_allow ∷ []

chain_passes : check_filters 5 (call 1) (let_through ∷ only_one ∷ []) ≡ some true
unfolding check_filters run_filter execute decode find_code load32
chain_passes = refl

ret-IsTame : (n : ℕ) → IsTame (inst 0x06 0 0 n)
unfolding decode find_code
ret-IsTame n = record {
  jt_byte = omega arith;
  jf_byte = omega arith;
  short = λ e. cc;
  left = λ e. cc;
  right = λ e. cc;
}

load-IsTame : IsTame (inst 0x20 0 0 0)
unfolding decode find_code
load-IsTame = record {
  jt_byte = omega arith;
  jf_byte = omega arith;
  short = λ e. cc;
  left = λ e. cc;
  right = λ e. cc;
}

jeq-IsTame : IsTame (inst 0x15 0 1 1)
unfolding decode find_code
jeq-IsTame = record {
  jt_byte = omega arith;
  jf_byte = omega arith;
  short = λ e. cc;
  left = λ e. cc;
  right = λ e. cc;
}

only_one-TameProgram : TameProgram only_one
only_one-TameProgram = tame_cons (inst 0x20 0 0 0) (drop 1 only_one) load-IsTame (
    tame_cons (inst 0x15 0 1 1) (drop 2 only_one) jeq-IsTame (
      tame_cons (inst 0x06 0 0 ret_allow) (drop 3 only_one) (ret-IsTame ret_allow)
        (tame_cons (inst 0x06 0 0 ret_kill) [] (ret-IsTame ret_kill) tame_nil)))

let_through-TameProgram : TameProgram let_through
let_through-TameProgram = tame_cons (inst 0x06 0 0 ret_allow) [] (ret-IsTame ret_allow) tame_nil

chain_tame : TameChain (let_through ∷ only_one ∷ [])
chain_tame =
    chain_cons let_through (only_one ∷ []) let_through-TameProgram (omega arith)
      (chain_cons only_one [] only_one-TameProgram (omega arith) chain_nil)

run_filter-returns_example : (r : ℕ) × (run_filter 5 only_one (call 1) start ≡ returned r)
run_filter-returns_example = run_filter-returns only_one (call 1) only_one-TameProgram (omega arith)

check_filters-Checked_example : Checked (2 ^ 16) (call 1) (let_through ∷ only_one ∷ [])
check_filters-Checked_example =
    check_filters-Checked (2 ^ 16) (call 1) (let_through ∷ only_one ∷ []) (omega arith) chain_tame

check_filters-append_run : check_filters 5 (call 1) (only_one ∷ []) ≡ some true
check_filters-append_run =
    check_filters-append 5 (call 1) (let_through ∷ []) (only_one ∷ []) chain_passes

-- A jump by 2^32 - 1 behind a load.
abbrev hanging : List Inst
hanging = inst 0x00 0 0 7 ∷ inst 0x05 0 0 (2 ^ 32 - 1) ∷ inst 0x06 0 0 ret_allow ∷ []

abbrev at_jump : Machine
at_jump = record { acc = 7; idx = 0; pc = 1 }

jump_is_reached :
    (fuel : ℕ)
    → run_filter (suc fuel) hanging (call 1) start ≡ run_filter fuel hanging (call 1) at_jump
unfolding run_filter execute decode find_code
jump_is_reached fuel = refl

jump_is_ja : decode 0x05 ≡ ja
unfolding decode find_code
jump_is_ja = refl

run_filter_hangs_run : run_filter 1000 hanging (call 1) at_jump ≡ out_of_fuel
run_filter_hangs_run =
    run_filter_hangs 1000 hanging (call 1) at_jump (inst 0x05 0 0 (2 ^ 32 - 1)) (omega arith)
      (omega arith) refl jump_is_ja refl
