-- ===== src/Decode/IsDecoded.antt =====
-- What `insn_decode` promises of its result, and how the combinators of `Select` keep it.
use mathlib.Core.Bool.{not}
use riscvemu_study.Prelude.{
  ℕ, ◌<◌, ◌≡◌, refl, arith, ◌==◌, Bool, true, false, List, [], ◌∷◌, Run, ok, fault, Ensures,
  Ensures-if, Ensures-assert, Ensures-ok, Ensures-fault, sym, ◌∙◌, bit_and, ◌&&◌,
}
use riscvemu_study.Prelude.Bits.{bit_and_mask}
use riscvemu_study.Insn.{InsnType, Insn, jal, jalr, ecall}
use riscvemu_study.Decode.Select.{pick, typed, with_imm, with_rd}

-- The instructions that always leave the block.
unfoldable pub is_jump : InsnType → Bool
is_jump jal = true
is_jump jalr = true
is_jump ecall = true
is_jump t = false

-- Register numbers that index the 32 registers.
pub record HasRegisters (i : Insn) : Type 0 where
  pub rd_lt : i.rd < 32
  pub rs1_lt : i.rs1 < 32
  pub rs2_lt : i.rs2 < 32
  pub rs3_lt : i.rs3 < 32

-- The registers exist, `rvc` is `compressed`, and `cont` tells the jumps from the rest.
pub record IsDecoded (compressed : Bool) (i : Insn) : Type 0 where
  pub registers : HasRegisters i
  pub size : i.rvc ≡ compressed
  pub jumps : i.cont ≡ is_jump i.type

-- What a reader of a format gives, before `type` is set.
pub record IsRead (compressed : Bool) (i : Insn) : Type 0 where
  pub registers : HasRegisters i
  pub size : i.rvc ≡ compressed
  pub plain : i.cont ≡ false

abbrev pub IsStraight : InsnType → Type 0
IsStraight t = is_jump t ≡ false

abbrev pub all_straight : List (ℕ × InsnType) → Bool
all_straight [] = true
all_straight ((j, t) ∷ cs) = not (is_jump t) && all_straight cs

pub pick-IsStraight :
    (cs : List (ℕ × InsnType)) (k : ℕ) → all_straight cs ≡ true → Ensures IsStraight (pick cs k)
unfolding pick
pick-IsStraight [] k h = Ensures-fault
pick-IsStraight ((j, t) ∷ cs) k h =
    Ensures-if (k == j) (Ensures-ok (ground arith)) (pick-IsStraight cs k (ground arith))

module _ {compressed : Bool} {i : Insn} where
  pub typed-IsDecoded :
      (m : Run InsnType)
      → IsRead compressed i
      → Ensures IsStraight m
      → Ensures (IsDecoded compressed) (typed i m)
  unfolding typed
  typed-IsDecoded (ok t) r h = Ensures-ok (record {
    registers = record {
      rd_lt = r.registers.rd_lt;
      rs1_lt = r.registers.rs1_lt;
      rs2_lt = r.registers.rs2_lt;
      rs3_lt = r.registers.rs3_lt;
    };
    size = r.size;
    jumps = r.plain ∙ sym (h.holds t refl);
  })
  typed-IsDecoded (fault e) r h = Ensures-fault

  pub with_imm-IsDecoded : IsDecoded compressed i → Ensures (IsDecoded compressed) (with_imm i)
  unfolding with_imm
  with_imm-IsDecoded d = Ensures-assert (not (i.imm == 0)) (Ensures-ok d)

  pub with_rd-IsDecoded : IsDecoded compressed i → Ensures (IsDecoded compressed) (with_rd i)
  unfolding with_rd
  with_rd-IsDecoded d = Ensures-assert (not (i.rd == 0)) (Ensures-ok d)

pub field5 : (x : ℕ) → bit_and x 0x1f < 32
field5 x = omega (arith, bit_and_mask 5 x)

pub field3 : (x : ℕ) → bit_and x 0x7 < 8
field3 x = omega (arith, bit_and_mask 3 x)
