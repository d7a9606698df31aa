-- ===== src/Codegen/Shape/Locals.antt =====
-- The locals that the source declares from the register file, and assigns back to it.
use riscvemu_study.Prelude.{ℕ, ◌≡◌, refl, ap, arith, Bool, true, false, List, [], ◌∷◌, ◌++◌, ok}
use riscvemu_study.Insn.{InsnType, Insn, lb}
use riscvemu_study.Codegen.Source.{Line, load_gp, load_fp, save_gp, save_fp}
use riscvemu_study.Codegen.Emit.{Emission}
use riscvemu_study.Codegen.Funcs.{emit}
use riscvemu_study.Codegen.Shape.Operations.{operations}
use riscvemu_study.Codegen.Block.Round.{fall_through}
use riscvemu_study.Codegen.Block.Reading.{IsReading, both_empty}

unfoldable pub gp_loads : List Line → List ℕ
gp_loads [] = []
gp_loads (load_gp r ∷ ls) = r ∷ gp_loads ls
gp_loads (l ∷ ls) = gp_loads ls

unfoldable pub fp_loads : List Line → List ℕ
fp_loads [] = []
fp_loads (load_fp r ∷ ls) = r ∷ fp_loads ls
fp_loads (l ∷ ls) = fp_loads ls

unfoldable pub gp_saves : List Line → List ℕ
gp_saves [] = []
gp_saves (save_gp r ∷ ls) = r ∷ gp_saves ls
gp_saves (l ∷ ls) = gp_saves ls

unfoldable pub fp_saves : List Line → List ℕ
fp_saves [] = []
fp_saves (save_fp r ∷ ls) = r ∷ fp_saves ls
fp_saves (l ∷ ls) = fp_saves ls

gp_loads-append : (ls ms : List Line) → gp_loads (ls ++ ms) ≡ gp_loads ls ++ gp_loads ms
unfolding gp_loads
gp_loads-append [] ms = refl
gp_loads-append (load_gp r ∷ ls) ms = ap (λ l. r ∷ l) (gp_loads-append ls ms)
gp_loads-append (_ ∷ ls) ms = gp_loads-append ls ms

pub gp_loads-IsReading : IsReading gp_loads
unfolding gp_loads
gp_loads-IsReading = record { empty = refl; append = gp_loads-append; around = (refl, refl, refl) }

fp_loads-append : (ls ms : List Line) → fp_loads (ls ++ ms) ≡ fp_loads ls ++ fp_loads ms
unfolding fp_loads
fp_loads-append [] ms = refl
fp_loads-append (load_fp r ∷ ls) ms = ap (λ l. r ∷ l) (fp_loads-append ls ms)
fp_loads-append (_ ∷ ls) ms = fp_loads-append ls ms

pub fp_loads-IsReading : IsReading fp_loads
unfolding fp_loads
fp_loads-IsReading = record { empty = refl; append = fp_loads-append; around = (refl, refl, refl) }

gp_saves-append : (ls ms : List Line) → gp_saves (ls ++ ms) ≡ gp_saves ls ++ gp_saves ms
unfolding gp_saves
gp_saves-append [] ms = refl
gp_saves-append (save_gp r ∷ ls) ms = ap (λ l. r ∷ l) (gp_saves-append ls ms)
gp_saves-append (_ ∷ ls) ms = gp_saves-append ls ms

pub gp_saves-IsReading : IsReading gp_saves
unfolding gp_saves
gp_saves-IsReading = record { empty = refl; append = gp_saves-append; around = (refl, refl, refl) }

fp_saves-append : (ls ms : List Line) → fp_saves (ls ++ ms) ≡ fp_saves ls ++ fp_saves ms
unfolding fp_saves
fp_saves-append [] ms = refl
fp_saves-append (save_fp r ∷ ls) ms = ap (λ l. r ∷ l) (fp_saves-append ls ms)
fp_saves-append (_ ∷ ls) ms = fp_saves-append ls ms

pub fp_saves-IsReading : IsReading fp_saves
unfolding fp_saves
fp_saves-IsReading = record { empty = refl; append = fp_saves-append; around = (refl, refl, refl) }

-- A list of lines has none of the four.
pub record IsLocal (ls : List Line) : Type 0 where
  pub no_gp_loads : gp_loads ls ≡ []
  pub no_fp_loads : fp_loads ls ≡ []
  pub no_gp_saves : gp_saves ls ≡ []
  pub no_fp_saves : fp_saves ls ≡ []

pub emit-IsLocal :
    (t : InsnType) (i : Insn) (pc : ℕ) {e : Emission} → emit t i pc ≡ ok e → IsLocal e.lines
unfolding emit gp_loads fp_loads gp_saves fp_saves operations
emit-IsLocal lb i pc h = ground arith
emit-IsLocal _ i pc h = ground arith

pub fall_through-IsLocal : (cont : Bool) (next : ℕ) → IsLocal (fall_through cont next)
unfolding gp_loads fp_loads gp_saves fp_saves
fall_through-IsLocal true next = ground arith
fall_through-IsLocal false next = ground arith

pub IsLocal-append : (ls ms : List Line) → IsLocal ls → IsLocal ms → IsLocal (ls ++ ms)
IsLocal-append ls ms h k = record {
  no_gp_loads = both_empty gp_loads gp_loads-IsReading ls ms h.no_gp_loads k.no_gp_loads;
  no_fp_loads = both_empty fp_loads fp_loads-IsReading ls ms h.no_fp_loads k.no_fp_loads;
  no_gp_saves = both_empty gp_saves gp_saves-IsReading ls ms h.no_gp_saves k.no_gp_saves;
  no_fp_saves = both_empty fp_saves fp_saves-IsReading ls ms h.no_fp_saves k.no_fp_saves;
}
