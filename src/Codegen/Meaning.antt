-- ===== src/Codegen/Meaning.antt =====
-- The meaning of the lines that src/codegen.c prints, by the rules of C for the types that they
-- use: two's complement, with the host's floating-point operations as a parameter.
pub mod Exec
pub mod Agrees
pub mod Same
pub mod Deferred
pub mod Words
use mathlib.Core.Bool.{not}
use riscvemu_study.Prelude.{
  ℕ, ◌+◌, ◌-◌, ◌*◌, ◌/◌, ◌%◌, ◌^◌, ◌==◌, ltb, leb, if◌then◌else◌, Bool, true, false, ◌&&◌, update,
  u8, u16, u32, u64, sext, sar32, sar64, ◌<<<◌, ◌>>>◌, bit_and, bit_or, bit_xor, List, [], ◌∷◌, Run,
  ok, fault, sigfpe, ◌>>=◌,
}
use riscvemu_study.Prelude.Int.{to_i64, to_i32, ltb_ℤ, quot, remainder, of_ℤ}
use riscvemu_study.State.{ExitReason, State, World, to_host, load_bytes, store_bytes}
use riscvemu_study.Interp.Imm.{of_bool}
use riscvemu_study.Interp.MulDiv.{divide_signed, divide_unsigned}
use riscvemu_study.Interp.Float.{Fpu, FloatOps}
use riscvemu_study.Codegen.Source.{
  CType, int8_t, int16_t, int32_t, int64_t, uint8_t, uint16_t, uint32_t, uint64_t, float, double,
  Name, rs1, rs2, rs3, rd, View, view_v, view_w, view_d, view_f, Op, Expr, Line, open_insn,
  goto_insn, close, goto_end, declare_rd, get_zero, get_gp, get_fp, set_gp, set_fp, mem_load,
  mem_store, assign_if, branch, set_reason, set_reenter,
}

-- The bits of a value, as many as its type has.
pub record Value : Type 0 where
  pub type : CType
  pub bits : ℕ

abbrev pub value : CType → ℕ → Value
value t n = record { type = t; bits = n }

abbrev pub size_of : CType → ℕ
size_of int8_t = 1
size_of uint8_t = 1
size_of int16_t = 2
size_of uint16_t = 2
size_of int32_t = 4
size_of uint32_t = 4
size_of float = 4
size_of t = 8

-- The type of the result of arithmetic on values of two types
abbrev pub common : CType → CType → CType
common double u = double
common t double = double
common float u = float
common t float = float
common uint64_t u = uint64_t
common t uint64_t = uint64_t
common int64_t u = int64_t
common t int64_t = int64_t
common uint32_t u = uint32_t
common t uint32_t = uint32_t
common t u = int32_t

-- An integer as the pattern of 64 bits that it converts to
abbrev pub wide : CType → ℕ → ℕ
wide int8_t n = sext 8 n
wide int16_t n = sext 16 n
wide int32_t n = sext 32 n
wide t n = n

-- A pattern of 64 bits, cut to a type of integers
abbrev pub narrow : CType → ℕ → ℕ
narrow int8_t n = u8 n
narrow uint8_t n = u8 n
narrow int16_t n = u16 n
narrow uint16_t n = u16 n
narrow int32_t n = u32 n
narrow uint32_t n = u32 n
narrow t n = n

abbrev pub is_signed : CType → Bool
is_signed int8_t = true
is_signed int16_t = true
is_signed int32_t = true
is_signed int64_t = true
is_signed t = false

-- The operators on two patterns of 64 bits, on two of 32, and on two floating-point numbers; a
-- comparison gives 0 or 1.
abbrev pub signed64 : Op → ℕ → ℕ → Run ℕ
signed64 Op.times a b = ok (u64 (a * b))
signed64 Op.divide a b = divide_signed (λ x y. of_ℤ (quot (to_i64 x) (to_i64 y))) (2 ^ 63) a b
signed64 Op.modulo a b = divide_signed (λ x y. of_ℤ (remainder (to_i64 x) (to_i64 y))) (2 ^ 63) a b
signed64 Op.plus a b = ok (u64 (a + b))
signed64 Op.minus a b = ok (u64 (a + 2 ^ 64 - b))
signed64 Op.shl a b = ok (u64 (a <<< b))
signed64 Op.shr a b = ok (sar64 a b)
signed64 Op.less a b = ok (of_bool (ltb_ℤ (to_i64 a) (to_i64 b)))
signed64 Op.less_eq a b = ok (of_bool (not (ltb_ℤ (to_i64 b) (to_i64 a))))
signed64 Op.greater_eq a b = ok (of_bool (not (ltb_ℤ (to_i64 a) (to_i64 b))))
signed64 Op.greater a b = ok (of_bool (ltb_ℤ (to_i64 b) (to_i64 a)))
signed64 Op.equal a b = ok (of_bool (a == b))
signed64 Op.not_equal a b = ok (of_bool (not (a == b)))
signed64 Op.band a b = ok (bit_and a b)
signed64 Op.bxor a b = ok (bit_xor a b)
signed64 Op.bor a b = ok (bit_or a b)
signed64 Op.logical_and a b = ok (of_bool (not (a == 0) && not (b == 0)))

abbrev pub unsigned64 : Op → ℕ → ℕ → Run ℕ
unsigned64 Op.divide a b = divide_unsigned (λ x y. x / y) a b
unsigned64 Op.modulo a b = divide_unsigned (λ x y. x % y) a b
unsigned64 Op.shr a b = ok (a >>> b)
unsigned64 Op.less a b = ok (of_bool (ltb a b))
unsigned64 Op.less_eq a b = ok (of_bool (not (ltb b a)))
unsigned64 Op.greater_eq a b = ok (of_bool (not (ltb a b)))
unsigned64 Op.greater a b = ok (of_bool (ltb b a))
unsigned64 op a b = signed64 op a b

abbrev pub signed32 : Op → ℕ → ℕ → Run ℕ
signed32 Op.times a b = ok (u32 (a * b))
signed32 Op.divide a b = divide_signed (λ x y. u32 (of_ℤ (quot (to_i32 x) (to_i32 y)))) (2 ^ 31) a b
signed32 Op.modulo a b =
    divide_signed (λ x y. u32 (of_ℤ (remainder (to_i32 x) (to_i32 y)))) (2 ^ 31) a b
signed32 Op.plus a b = ok (u32 (a + b))
signed32 Op.minus a b = ok (u32 (a + 2 ^ 32 - b))
signed32 Op.shl a b = ok (u32 (a <<< b))
signed32 Op.shr a b = ok (sar32 a b)
signed32 Op.less a b = ok (of_bool (ltb_ℤ (to_i32 a) (to_i32 b)))
signed32 Op.less_eq a b = ok (of_bool (not (ltb_ℤ (to_i32 b) (to_i32 a))))
signed32 Op.greater_eq a b = ok (of_bool (not (ltb_ℤ (to_i32 a) (to_i32 b))))
signed32 Op.greater a b = ok (of_bool (ltb_ℤ (to_i32 b) (to_i32 a)))
signed32 Op.equal a b = ok (of_bool (a == b))
signed32 Op.not_equal a b = ok (of_bool (not (a == b)))
signed32 Op.band a b = ok (bit_and a b)
signed32 Op.bxor a b = ok (bit_xor a b)
signed32 Op.bor a b = ok (bit_or a b)
signed32 Op.logical_and a b = ok (of_bool (not (a == 0) && not (b == 0)))

abbrev pub unsigned32 : Op → ℕ → ℕ → Run ℕ
unsigned32 Op.divide a b = divide_unsigned (λ x y. x / y) a b
unsigned32 Op.modulo a b = divide_unsigned (λ x y. x % y) a b
unsigned32 Op.shr a b = ok (a >>> b)
unsigned32 Op.less a b = ok (of_bool (ltb a b))
unsigned32 Op.less_eq a b = ok (of_bool (not (ltb b a)))
unsigned32 Op.greater_eq a b = ok (of_bool (not (ltb a b)))
unsigned32 Op.greater a b = ok (of_bool (ltb b a))
unsigned32 op a b = signed32 op a b

abbrev pub floating : FloatOps → Op → ℕ → ℕ → ℕ
floating f Op.times a b = f.times a b
floating f Op.divide a b = f.over a b
floating f Op.plus a b = f.plus a b
floating f Op.minus a b = f.minus a b
floating f Op.less a b = of_bool (f.lt a b)
floating f Op.less_eq a b = of_bool (f.le a b)
floating f Op.greater a b = of_bool (f.lt b a)
floating f Op.greater_eq a b = of_bool (f.le b a)
floating f Op.equal a b = of_bool (f.eq a b)
floating f Op.not_equal a b = of_bool (not (f.eq a b))
floating f op a b = 0

abbrev pub is_comparison : Op → Bool
is_comparison Op.less = true
is_comparison Op.less_eq = true
is_comparison Op.greater = true
is_comparison Op.greater_eq = true
is_comparison Op.equal = true
is_comparison Op.not_equal = true
is_comparison Op.logical_and = true
is_comparison op = false

abbrev pub is_shift : Op → Bool
is_shift Op.shl = true
is_shift Op.shr = true
is_shift op = false

-- The type of `a op b`
abbrev pub result_type : Op → CType → CType → CType
result_type op t u =
    if is_comparison op then int32_t else if is_shift op then common t int32_t else common t u

-- The type of an expression over locals of given types
abbrev pub type_of : (Name → CType) → Expr → CType
type_of locals (Expr.var x) = locals x
type_of locals (Expr.lit_ll n) = int64_t
type_of locals (Expr.lit_ull n) = uint64_t
type_of locals (Expr.lit_int n) = int32_t
type_of locals Expr.lit_uint64_max = uint64_t
type_of locals Expr.lit_int64_min = int64_t
type_of locals (Expr.cast t e) = t
type_of locals (Expr.neg e) = common (type_of locals e) int32_t
type_of locals (Expr.bit_not e) = common (type_of locals e) int32_t
type_of locals (Expr.bin op a b) = result_type op (type_of locals a) (type_of locals b)
type_of locals (Expr.choose c a b) = common (type_of locals a) (type_of locals b)
