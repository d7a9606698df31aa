-- ===== src/Interp/MulDiv.antt =====
-- Multiplication and division: inc/interpret_utils.h and the interpreter's operations on them.
pub mod Quotient
pub mod Division
pub mod High
pub mod Signed
use riscvemu_study.Prelude.{ℕ, ◌+◌, ◌-◌, ◌*◌, ◌/◌, ◌%◌, ◌^◌, ◌==◌, leb, if◌then◌else◌}
use riscvemu_study.Prelude.{
  Bool, ◌&&◌, u32, u64, sext, ◌<<<◌, ◌>>>◌, bit_or, Run, ok, fault, sigfpe, ◌>>=◌,
}
use riscvemu_study.Prelude.Int.{to_i64, quot, remainder, of_ℤ}
use mathlib.Core.Bool.{xor}
use riscvemu_study.Insn.{Insn}
use riscvemu_study.State.{State, set_rd}
use riscvemu_study.Interp.Reg.{reg_op}
use riscvemu_study.Interp.Imm.{of_bool}

-- The high word of a product, from four products of 32-bit halves.
unfoldable pub mulhu : ℕ → ℕ → ℕ
mulhu a b =
    let a0 = u32 a in
    let a1 = a >>> 32 in
    let b0 = u32 b in
    let b1 = b >>> 32 in
    let t = u64 (a1 * b0 + (u64 (a0 * b0) >>> 32)) in
    let y1 = u32 t in
    let y2 = t >>> 32 in
    let t' = u64 (a0 * b1 + y1) in
    let t'' = u64 (a1 * b1 + y2 + (t' >>> 32)) in
    let y2' = u32 t'' in let y3 = t'' >>> 32 in bit_or (y3 <<< 32) y2'

-- `a < 0` of an i64, and `-a`
abbrev pub is_negative : ℕ → Bool
is_negative a = leb (2 ^ 63) a

abbrev pub negate : ℕ → ℕ
negate a = u64 (2 ^ 64 - a)

-- `a < 0 ? -a : a`
abbrev pub magnitude : ℕ → ℕ
magnitude a = if is_negative a then negate a else a

-- `~res + (a * b == 0)`
abbrev pub complement : ℕ → ℕ → ℕ → ℕ
complement res a b = u64 (2 ^ 64 - 1 - res + of_bool (u64 (a * b) == 0))

unfoldable pub mulh : ℕ → ℕ → ℕ
mulh a b =
    let res = mulhu (magnitude a) (magnitude b) in
    if xor (is_negative a) (is_negative b) then complement res a b else res

unfoldable pub mulhsu : ℕ → ℕ → ℕ
mulhsu a b = let res = mulhu (magnitude a) b in if is_negative a then complement res a b else res

abbrev pub uint64_max : ℕ
uint64_max = 2 ^ 64 - 1

abbrev pub int64_min : ℕ
int64_min = 2 ^ 63

unfoldable pub func_mul : State → Insn → State
func_mul = reg_op λ rs1 rs2. rs1 * rs2

unfoldable pub func_mulh : State → Insn → State
func_mulh = reg_op λ rs1 rs2. mulh rs1 rs2

unfoldable pub func_mulhsu : State → Insn → State
func_mulhsu = reg_op λ rs1 rs2. mulhsu rs1 rs2

unfoldable pub func_mulhu : State → Insn → State
func_mulhu = reg_op λ rs1 rs2. mulhu rs1 rs2

unfoldable pub func_remu : State → Insn → State
func_remu = reg_op λ rs1 rs2. if rs2 == 0 then rs1 else rs1 % rs2

unfoldable pub func_mulw : State → Insn → State
func_mulw = reg_op λ rs1 rs2. sext 32 (u32 (rs1 * rs2))

unfoldable pub div_value : ℕ → ℕ → ℕ
div_value rs1 rs2 =
    if rs2 == 0
    then uint64_max
    else if (rs1 == int64_min) && (rs2 == uint64_max)
    then int64_min
    else of_ℤ (quot (to_i64 rs1) (to_i64 rs2))

unfoldable pub func_div : State → Insn → State
func_div = reg_op div_value

unfoldable pub func_divu : State → Insn → State
func_divu = reg_op λ rs1 rs2. if rs2 == 0 then uint64_max else rs1 / rs2

unfoldable pub rem_value : ℕ → ℕ → ℕ
rem_value rs1 rs2 =
    if rs2 == 0
    then rs1
    else if (rs1 == int64_min) && (rs2 == uint64_max)
    then 0
    else of_ℤ (remainder (to_i64 rs1) (to_i64 rs2))

unfoldable pub func_rem : State → Insn → State
func_rem = reg_op rem_value

-- A division of C: by zero, and where the quotient overflows, the host raises SIGFPE.
unfoldable pub divide_signed : (ℕ → ℕ → ℕ) → ℕ → ℕ → ℕ → Run ℕ
divide_signed f lowest a b =
    if b == 0
    then fault sigfpe
    else if (a == lowest) && (b == 2 * lowest - 1)
    then fault sigfpe
    else ok (f a b)

abbrev pub divide_unsigned : (ℕ → ℕ → ℕ) → ℕ → ℕ → Run ℕ
divide_unsigned f a b = if b == 0 then fault sigfpe else ok (f a b)

-- The 32-bit forms test all 64 bits of `rs2`, and divide by its low half.
unfoldable pub word_op : ℕ → (ℕ → ℕ → Run ℕ) → State → Insn → Run State
unfolding set_rd
word_op on_zero divide s i =
    let rs1 = s.gp_regs i.rs1 in
    let rs2 = s.gp_regs i.rs2 in
    if rs2 == 0
    then ok (set_rd s i on_zero)
    else (divide (u32 rs1) (u32 rs2) >>= λ v. ok (set_rd s i v))

-- The result is cut to an i32 and extended.
abbrev pub extended : Run ℕ → Run ℕ
extended r = r >>= λ v. ok (sext 32 (u32 v))

unfoldable pub func_divw : State → Insn → Run State
func_divw = word_op uint64_max λ a b.
    extended
      (divide_signed (λ x y. of_ℤ (quot (to_i64 x) (to_i64 y))) (2 ^ 63) (sext 32 a) (sext 32 b))

unfoldable pub func_divuw : State → Insn → Run State
func_divuw = word_op uint64_max λ a b. extended (divide_unsigned (λ x y. x / y) a b)

unfoldable pub func_remw : State → Insn → Run State
func_remw s i =
    word_op (sext 32 (u32 (s.gp_regs i.rs1)))
      (λ a b. extended (
        divide_signed (λ x y. of_ℤ (remainder (to_i64 x) (to_i64 y))) (2 ^ 63) (sext 32 a)
          (sext 32 b)))
      s i

unfoldable pub func_remuw : State → Insn → Run State
func_remuw s i =
    word_op (sext 32 (u32 (s.gp_regs i.rs1))) (λ a b. extended (divide_unsigned (λ x y. x % y) a b))
      s i
