-- ===== src/Codegen/Meaning/Exec.antt =====
-- Expressions and statements of the printed C, run on the guest's state. The locals `x<r>` and
-- `f<r>` of the source stand for the registers of the state.
use riscvemu_study.Prelude.{
  ℕ, ◌+◌, ◌-◌, ◌*◌, ◌/◌, ◌^◌, ◌==◌, if◌then◌else◌, Bool, true, false, update, u32, u64, List, [],
  ◌∷◌, Run, ok, fault, unreachable, ◌>>=◌,
}
use riscvemu_study.State.{World, to_host, load_bytes, store_bytes}
use riscvemu_study.Interp.Float.{Fpu, FloatOps}
use riscvemu_study.Codegen.Source.{
  CType, int32_t, int64_t, uint32_t, uint64_t, float, double, Name, rs1, rs2, rs3, rd, View, view_v,
  view_w, view_d, view_f, Op, Expr, Line,
}
use riscvemu_study.Codegen.Meaning.{
  Value, value, size_of, common, wide, narrow, is_signed, signed64, unsigned64, signed32,
  unsigned32, floating, is_shift, result_type, type_of,
}

-- The locals of an instruction's block
abbrev pub Locals : Type 0
Locals = Name → Value

abbrev pub same_name : Name → Name → Bool
same_name rs1 rs1 = true
same_name rs2 rs2 = true
same_name rs3 rs3 = true
same_name rd rd = true
same_name x y = false

abbrev pub assign : Locals → Name → Value → Locals
assign l x v y = if same_name x y then v else l y

-- How control leaves a line
pub data Flow : Type 0 where
  next : Flow
  jump : ℕ → Flow
  leave : Flow

pub record Frame : Type 0 where
  pub world : World
  pub locals : Locals

module _ (fpu : Fpu) where
  abbrev pub of_integer : FloatOps → CType → ℕ → ℕ
  of_integer f t n = if is_signed t then f.of_signed (wide t n) else f.of_unsigned n

  -- A value as the bits of another type. No line makes an integer of a floating-point number.
  abbrev pub convert : CType → Value → Run ℕ
  convert float v = elim v.type [
    | float ↦ ok v.bits
    | double ↦ ok (fpu.narrow v.bits)
    | t ↦ ok (of_integer fpu.f32 t v.bits)
  ]
  convert double v = elim v.type [
    | float ↦ ok (fpu.widen v.bits)
    | double ↦ ok v.bits
    | t ↦ ok (of_integer fpu.f64 t v.bits)
  ]
  convert u v = elim v.type [
    | float ↦ fault unreachable
    | double ↦ fault unreachable
    | t ↦ ok (narrow u (wide t v.bits))
  ]

  abbrev pub operate : CType → Op → ℕ → ℕ → Run ℕ
  operate float op a b = ok (floating fpu.f32 op a b)
  operate double op a b = ok (floating fpu.f64 op a b)
  operate int64_t op a b = signed64 op a b
  operate uint64_t op a b = unsigned64 op a b
  operate uint32_t op a b = unsigned32 op a b
  operate t op a b = signed32 op a b

  -- `a op b`; a shift converts its operands apart from each other.
  abbrev pub apply : Op → Value → Value → Run Value
  apply op a b =
      let t = if is_shift op then common a.type int32_t else common a.type b.type in
      convert t a >>= λ x. convert (if is_shift op then common b.type int32_t else t) b >>= λ y.
      operate t op x y >>= λ z. ok (value (result_type op a.type b.type) z)

  abbrev pub negate_value : Value → Run Value
  negate_value v = elim (common v.type int32_t) [
    | float ↦ ok (value float (fpu.f32.negated v.bits))
    | double ↦ ok (value double (fpu.f64.negated v.bits))
    | t ↦ apply Op.minus (value t 0) v
  ]

  -- `~v` is `-1 ^ v`.
  abbrev pub complement_value : Value → Run Value
  complement_value v = apply Op.bxor (value int32_t (2 ^ 32 - 1)) v

  unfoldable pub eval : Locals → Expr → Run Value
  eval l (Expr.var x) = ok (l x)
  eval l (Expr.lit_ll n) = ok (value int64_t n)
  eval l (Expr.lit_ull n) = ok (value uint64_t n)
  eval l (Expr.lit_int n) = ok (value int32_t n)
  eval l Expr.lit_uint64_max = ok (value uint64_t (2 ^ 64 - 1))
  eval l Expr.lit_int64_min = ok (value int64_t (2 ^ 63))
  eval l (Expr.cast t e) = eval l e >>= λ v. convert t v >>= λ n. ok (value t n)
  eval l (Expr.neg e) = eval l e >>= negate_value
  eval l (Expr.bit_not e) = eval l e >>= complement_value
  eval l (Expr.bin op a b) = eval l a >>= λ x. eval l b >>= λ y. apply op x y
  eval l (Expr.choose c a b) =
      let t = common (type_of (λ x. (l x).type) a) (type_of (λ x. (l x).type) b) in
      let then_value = eval l a >>= λ v. convert t v >>= λ n. ok (value t n) in
      let else_value = eval l b >>= λ v. convert t v >>= λ n. ok (value t n) in
      eval l c >>= λ v. if v.bits == 0 then else_value else then_value

  -- The members of `fp_reg_t`
  abbrev pub view_type : View → CType
  view_type view_v = uint64_t
  view_type view_w = uint32_t
  view_type view_d = double
  view_type view_f = float

  abbrev pub read_view : View → ℕ → ℕ
  read_view view_w n = u32 n
  read_view view_f n = u32 n
  read_view v n = n

  abbrev pub write_view : View → ℕ → ℕ → ℕ
  write_view view_w old n = old / 2 ^ 32 * 2 ^ 32 + u32 n
  write_view view_f old n = old / 2 ^ 32 * 2 ^ 32 + u32 n
  write_view v old n = u64 n

  abbrev pub with_gp : World → ℕ → ℕ → World
  with_gp w r n = record w {
    state = record (w.state) { gp_regs = update w.state.gp_regs r (u64 n) };
  }

  abbrev pub with_fp : World → ℕ → ℕ → World
  with_fp w r n = record w { state = record (w.state) { fp_regs = update w.state.fp_regs r n } }

  -- The first test that is not 0 chooses the value.
  unfoldable pub first_of : Locals → List (Expr × Expr) → Expr → Run Value
  unfolding eval
  first_of l [] e = eval l e
  first_of l ((test, e) ∷ rest) last =
      let others = first_of l rest last in
      eval l test >>= λ v. if v.bits == 0 then others else eval l e

  abbrev pub go_on : Frame → Run (Frame × Flow)
  go_on f = ok (f, next)

  unfoldable pub exec_line : Line → Frame → Run (Frame × Flow)
  unfolding eval first_of
  exec_line (Line.get_zero x) f = go_on (record f { locals = assign f.locals x (value uint64_t 0) })
  exec_line (Line.get_gp x r) f =
      go_on (record f { locals = assign f.locals x (value uint64_t (f.world.state.gp_regs r)) })
  exec_line (Line.get_fp t x v r) f =
      convert t (value (view_type v) (read_view v (f.world.state.fp_regs r))) >>= λ n.
      go_on (record f { locals = assign f.locals x (value t n) })
  exec_line (Line.set_gp r e) f = eval f.locals e >>= λ v.
      convert uint64_t v >>= λ n. go_on (record f { world = with_gp f.world r n })
  exec_line (Line.set_fp v r e) f = eval f.locals e >>= λ x. convert (view_type v) x >>= λ n.
      go_on (record f { world = with_fp f.world r (write_view v (f.world.state.fp_regs r) n) })
  exec_line (Line.mem_load t x e) f = eval f.locals e >>= λ v. convert uint64_t v >>= λ a.
      load_bytes f.world.memory (to_host a) (size_of t) >>= λ n.
      go_on (record f { locals = assign f.locals x (value t n) })
  exec_line (Line.mem_store t e x) f = eval f.locals e >>= λ v. convert uint64_t v >>= λ a.
      convert t (f.locals x) >>= λ n. store_bytes f.world.memory (to_host a) (size_of t) n >>= λ m.
      go_on (record f { world = record (f.world) { memory = m } })
  exec_line Line.declare_rd f = go_on (record f { locals = assign f.locals rd (value uint64_t 0) })
  exec_line (Line.assign_if tests e) f = first_of f.locals tests e >>= λ v.
      convert (f.locals rd).type v >>= λ n.
      go_on (record f { locals = assign f.locals rd (value (f.locals rd).type n) })
  exec_line (Line.branch t op pc) f =
      eval f.locals (Expr.bin op (Expr.cast t (Expr.var rs1)) (Expr.cast t (Expr.var rs2))) >>= λ v.
      if v.bits == 0 then go_on f else ok (f, jump pc)
  exec_line (Line.set_reason r) f =
      go_on (record f {
        world = record (f.world) { state = record (f.world.state) { exit_reason = r } };
      })
  exec_line (Line.set_reenter e) f = eval f.locals e >>= λ v. convert uint64_t v >>= λ n.
      go_on (record f {
        world = record (f.world) { state = record (f.world.state) { reenter_pc = n } };
      })
  exec_line (Line.goto_insn pc) f = ok (f, jump pc)
  exec_line Line.goto_end f = ok (f, leave)
  exec_line l f = go_on f

  unfoldable pub exec_lines : List Line → Frame → Run (Frame × Flow)
  unfolding exec_line
  exec_lines [] f = go_on f
  exec_lines (l ∷ ls) f = exec_line l f >>= λ (f', flow). elim flow [
    | next ↦ exec_lines ls f'
    | jump pc ↦ ok (f', jump pc)
    | leave ↦ ok (f', leave)
  ]
