-- ===== src/Decode/Over.antt =====
-- What `insn_decode` promises over an `*insn` that an earlier call has left.
use riscvemu_study.Prelude.{ℕ, ◌≡◌, ◌⊎◌, inl, inr, arith, false, ok, refl}
use riscvemu_study.Insn.{Insn}
use riscvemu_study.Decode.Base.{decode_system}
use riscvemu_study.Decode.Dispatch.{decode_quadrant3, insn_decode}
use riscvemu_study.Decode.IsDecoded.{HasRegisters, is_jump}
use riscvemu_study.Decode.WellFormed.{insn_decode-IsDecoded}

quadrant3_over :
    (prev : Insn) (word : ℕ) {i : Insn}
    → decode_quadrant3 prev word ≡ ok i
    → (decode_quadrant3 (record prev { rvc = false }) word ≡ ok i)
      ⊎ (decode_quadrant3 (record prev { rvc = false }) word ≡ ok (record i { rvc = false }))
unfolding decode_quadrant3 decode_system
quadrant3_over prev word e = ground arith

over :
    (prev : Insn) (word : ℕ) {i : Insn}
    → insn_decode prev word ≡ ok i
    → (insn_decode (record prev { rvc = false }) word ≡ ok i)
      ⊎ (insn_decode (record prev { rvc = false }) word ≡ ok (record i { rvc = false }))
unfolding insn_decode
over prev word {i} e = ground (arith, quadrant3_over prev word {i = i})

-- The register numbers and `cont` are as `insn_decode-IsDecoded` has them, whatever `rvc` held.
pub insn_decode_over :
    (prev : Insn) (word : ℕ) {i : Insn}
    → HasRegisters prev
    → insn_decode prev word ≡ ok i
    → HasRegisters i × (i.cont ≡ is_jump i.type)
insn_decode_over prev word {i} h e = elim (over prev word e) [
  | inl same ↦
      let d =
        insn_decode-IsDecoded (record prev { rvc = false }) word (omega (arith, h)) refl same in
      (d.registers, d.jumps)
  | inr cleared ↦
      let d =
        insn_decode-IsDecoded (record prev { rvc = false }) word (omega (arith, h)) refl cleared in
      (omega (arith, d.registers), d.jumps)
]
