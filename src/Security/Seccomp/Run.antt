-- ===== src/Security/Seccomp/Run.antt =====
-- kernel/security/seccomp.c: runs of a filter end, or never do.
use rucix_kernel.Common.{
  ℕ, zero, suc, ◌+◌, ◌-◌, ◌^◌, ◌≤◌, ◌<◌, ◌≡◌, refl, ap, ◌∙◌, subst, some, List, [], ◌∷◌, arith, ltb,
  get_elem?, get_elem?-some, length, inl, inr, Bool-cases, ◌⊎◌, lt→ltb,
}
use mathlib.Core.Option.{some-injective, none-ne-some}
use rucix_kernel.Security.Seccomp.{
  Inst, Opcode, ld_abs, ret_k, ret_a, lsh_k, rsh_k, ja, jeq, jgt, jge, jset, unknown, decode,
  ret_kill, Machine, Effect, goes, stops, undefined, execute, returned, undefined_shift,
  out_of_fuel, run_filter, start,
}

-- The offsets of an instruction stay small, and its shift counts below 32.
pub record IsTame (i : Inst) : Type 0 where
  pub jt_byte : i.jt < 2 ^ 8
  pub jf_byte : i.jf < 2 ^ 8
  pub short : decode i.code ≡ ja → i.k < 2 ^ 30
  pub left : decode i.code ≡ lsh_k → i.k < 32
  pub right : decode i.code ≡ rsh_k → i.k < 32

-- An instruction returns, or goes forward.
Forward : Machine → Effect → Type 0
Forward m e =
    ((r : ℕ) × (e ≡ stops r)) ⊎ ((m' : Machine) × (e ≡ goes m') × (m.pc < m'.pc) × (m'.pc < 2 ^ 31))

execute-Forward :
    (sd : ℕ → ℕ) (i : Inst) (m : Machine) (op : Opcode)
    → i.jt < 2 ^ 8
    → i.jf < 2 ^ 8
    → (op ≡ ja → i.k < 2 ^ 30)
    → (op ≡ lsh_k → i.k < 32)
    → (op ≡ rsh_k → i.k < 32)
    → m.pc < 2 ^ 16
    → Forward m (execute sd i m op)
unfolding execute Forward
execute-Forward sd i m ld_abs jt jf s l r h = elim (Bool-cases (ltb i.k 64)) [
  | inl e ↦ rw e (inr (_, refl, omega arith, omega arith))
  | inr e ↦ rw e (inl (_, refl))
]
execute-Forward sd i m ret_k jt jf s l r h = inl (_, refl)
execute-Forward sd i m ret_a jt jf s l r h = inl (_, refl)
execute-Forward sd i m unknown jt jf s l r h = inl (_, refl)
execute-Forward sd i m lsh_k jt jf s l r h =
    rw (lt→ltb _ _ (l refl)) (inr (_, refl, omega arith, omega arith))
execute-Forward sd i m rsh_k jt jf s l r h =
    rw (lt→ltb _ _ (r refl)) (inr (_, refl, omega arith, omega arith))
execute-Forward sd i m ja jt jf s l r h = let k = s refl in inr (_, refl, omega arith, omega arith)
execute-Forward sd i m jeq jt jf s l r h = inr (_, refl, ground arith, ground arith)
execute-Forward sd i m jgt jt jf s l r h = inr (_, refl, ground arith, ground arith)
execute-Forward sd i m jge jt jf s l r h = inr (_, refl, ground arith, ground arith)
execute-Forward sd i m jset jt jf s l r h = inr (_, refl, ground arith, ground arith)
execute-Forward sd i m other jt jf s l r h = inr (_, refl, omega arith, omega arith)

-- Every instruction of the program is tame.
abbrev pub TameProgram : List Inst → Type 0
TameProgram prog = (n : ℕ) (i : Inst) → get_elem? prog n ≡ some i → IsTame i

pub tame_nil : TameProgram []
tame_nil n i e = absurd (none-ne-some _ e)

pub tame_cons : (i : Inst) (prog : List Inst) → IsTame i → TameProgram prog → TameProgram (i ∷ prog)
tame_cons i prog t rest zero j e = subst IsTame (some-injective _ _ e) t
tame_cons i prog t rest (suc n) j e = rest n j e

past_end :
    (fuel : ℕ) (prog : List Inst) (sd : ℕ → ℕ) (m : Machine)
    → m.pc < 2 ^ 31
    → length prog ≤ m.pc
    → run_filter (suc fuel) prog sd m ≡ returned ret_kill
unfolding run_filter
past_end fuel prog sd m h e = ground arith

step_inside :
    (fuel : ℕ) (prog : List Inst) (sd : ℕ → ℕ) (m : Machine) (i : Inst) (e : Effect)
    → m.pc < length prog
    → get_elem? prog m.pc ≡ some i
    → execute sd i m (decode i.code) ≡ e
    → run_filter (suc fuel) prog sd m ≡ (elim e [
      | goes m' ↦ run_filter fuel prog sd m'
      | stops r ↦ returned r
      | undefined ↦ undefined_shift
    ])
unfolding run_filter
step_inside fuel prog sd m i e h g x = rw (g, x, lt→ltb _ _ h) (ground arith)

pub run_tame :
    (fuel : ℕ) (prog : List Inst) (sd : ℕ → ℕ) (m : Machine)
    → TameProgram prog
    → length prog < 2 ^ 16
    → m.pc < 2 ^ 31
    → length prog ≤ fuel + m.pc
    → (r : ℕ) × (run_filter (suc fuel) prog sd m ≡ returned r)
unfolding Forward
run_tame zero prog sd m tame small h l = (ret_kill, past_end zero prog sd m h (omega (arith, l)))
run_tame (suc fuel) prog sd m tame small h l = elim (Bool-cases (ltb m.pc (length prog))) [
  | inr e ↦ (ret_kill, past_end (suc fuel) prog sd m h (ground arith))
  | inl e ↦
      let inside : m.pc < length prog = ground arith in
      let (i, g) = get_elem?-some prog m.pc inside in
      let t = tame m.pc i g in
      elim (execute-Forward sd i m (decode i.code) t.jt_byte t.jf_byte t.short t.left t.right
        (omega arith)) [
          | inl (r, x) ↦ (r, step_inside (suc fuel) prog sd m i (stops r) inside g x)
          | inr (m', x, f, b) ↦
              let (r, q) = run_tame fuel prog sd m' tame small b (omega arith) in
              (r, step_inside (suc fuel) prog sd m i (goes m') inside g x ∙ q)
        ]
]

-- A filter shorter than 2^16 instructions whose branch offsets are bytes, whose unconditional jumps
-- are shorter than 2^30 and whose shifts are by less than 32 returns a value after at most as many
-- rounds as it has instructions, and one more, whatever the system call's data are.
pub run_filter-returns :
    (prog : List Inst) (sd : ℕ → ℕ)
    → TameProgram prog
    → length prog < 2 ^ 16
    → (r : ℕ) × (run_filter (suc (length prog)) prog sd start ≡ returned r)
run_filter-returns prog sd tame small =
    run_tame (length prog) prog sd start tame small (omega arith) (omega arith)

jump_back :
    (sd : ℕ → ℕ) (i : Inst) (m : Machine) (op : Opcode)
    → op ≡ ja
    → i.k ≡ 2 ^ 32 - 1
    → m.pc < 2 ^ 31
    → execute sd i m op ≡ goes m
unfolding execute
jump_back sd i m op d e h = rw d (ap (λ p. goes (record m { pc = p })) (omega arith))

-- A filter with an unconditional jump whose operand is 2^32 - 1, that is -1, never ends once it has
-- reached that instruction, whatever else it holds.
pub run_filter_hangs :
    (fuel : ℕ) (prog : List Inst) (sd : ℕ → ℕ) (m : Machine) (i : Inst)
    → m.pc < length prog
    → m.pc < 2 ^ 31
    → get_elem? prog m.pc ≡ some i
    → decode i.code ≡ ja
    → i.k ≡ 2 ^ 32 - 1
    → run_filter fuel prog sd m ≡ out_of_fuel
unfolding run_filter
run_filter_hangs zero prog sd m i l h g d e = refl
run_filter_hangs (suc fuel) prog sd m i l h g d e =
    step_inside fuel prog sd m i (goes m) l g (jump_back sd i m (decode i.code) d e h)
    ∙ run_filter_hangs fuel prog sd m i l h g d e
