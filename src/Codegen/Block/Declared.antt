-- ===== src/Codegen/Block/Declared.antt =====
-- How often the source of a block declares a register's local, and assigns it back.
use riscvemu_study.Prelude.{
  ℕ, zero, suc, ◌+◌, ◌≡◌, refl, ap, ◌∙◌, arith, ◌==◌, ltb, leb, ◌&&◌, if◌then◌else◌, Bool, true,
  false, Bool-cases, inl, inr, List, [], ◌∷◌, ◌++◌,
}
use riscvemu_study.Codegen.Source.{Line, load_gp, load_fp, save_gp, save_fp}
use riscvemu_study.Codegen.Tracer.{append_used, tracer_append_prologue, tracer_append_epilogue}
use riscvemu_study.Codegen.Shape.Append.{count, count-append}
use riscvemu_study.Codegen.Block.{Gen, gen_source}
use riscvemu_study.Codegen.Block.Reading.{IsReading, append_used_empty, gen_source-parts}
use riscvemu_study.Codegen.Shape.Locals.{
  gp_loads, fp_loads, gp_saves, fp_saves, IsLocal, gp_loads-IsReading, fp_loads-IsReading,
  gp_saves-IsReading, fp_saves-IsReading,
}

module _ (f : List Line → List ℕ) (h : IsReading f) (line : ℕ → Line)
    (own : (r : ℕ) → f (line r ∷ []) ≡ r ∷ []) where
  -- One line for each register of the range that is used
  append_used-count :
      (used : ℕ → Bool) (i left r : ℕ)
      → count (f (append_used used line i left)) r
        ≡ (if used r && leb i r && ltb r (i + left) then 1 else 0)
  unfolding append_used count
  append_used-count used i zero r = ground (arith, h.empty)
  append_used-count used i (suc left) r =
      ap (λ l. count l r)
        (h.append (if used i then line i ∷ [] else []) (append_used used line (i + 1) left))
      ∙ (count-append (f (if used i then line i ∷ [] else [])) _ r
          ∙ (let rest = append_used-count used (i + 1) left r in
              let first = here (used i) in
              elim (Bool-cases (i == r)) [
                | inl same ↦ let at : i ≡ r = ground arith in ground (arith, ap used at)
                | inr other ↦ ground arith
              ]))
    where
      here :
          (b : Bool) → count (f (if b then line i ∷ [] else [])) r ≡ (if b && i == r then 1 else 0)
      here true = ground (arith, own i)
      here false = ground (arith, h.empty)

-- The five parts of a source, counted
source_count :
    (f : List Line → List ℕ) (g : Gen) (r : ℕ)
    → IsReading f
    → count (f (gen_source g)) r
      ≡ count (f (append_used g.tracer.gp_reg load_gp 1 31)) r
        + count (f (append_used g.tracer.fp_reg load_fp 0 32)) r
        + count (f g.body) r
        + count (f (append_used g.tracer.gp_reg save_gp 1 31)) r
        + count (f (append_used g.tracer.fp_reg save_fp 0 32)) r
unfolding tracer_append_prologue tracer_append_epilogue
source_count f g r h =
    let loads =
      h.append (append_used g.tracer.gp_reg load_gp 1 31)
        (append_used g.tracer.fp_reg load_fp 0 32) in
    let saves =
      h.append (append_used g.tracer.gp_reg save_gp 1 31)
        (append_used g.tracer.fp_reg save_fp 0 32) in
    let parts = gen_source-parts f h g in
    let whole = ap (λ l. count l r) parts in
    omega (
      arith,
      whole,
      count-append (f (tracer_append_prologue g.tracer))
          (f g.body ++ f (tracer_append_epilogue g.tracer)) r,
      count-append (f g.body) (f (tracer_append_epilogue g.tracer)) r,
      ap (λ l. count l r) loads,
      ap (λ l. count l r) saves,
      count-append (f (append_used g.tracer.gp_reg load_gp 1 31))
          (f (append_used g.tracer.fp_reg load_fp 0 32)) r,
      count-append (f (append_used g.tracer.gp_reg save_gp 1 31))
          (f (append_used g.tracer.fp_reg save_fp 0 32)) r,
    )

none_of :
    (f : List Line → List ℕ) (used : ℕ → Bool) (line : ℕ → Line) (i left r : ℕ)
    → IsReading f
    → ((s : ℕ) → f (line s ∷ []) ≡ [])
    → count (f (append_used used line i left)) r ≡ 0
unfolding count
none_of f used line i left r h quiet =
    ap (λ l. count l r) (append_used_empty f h used line i left quiet)

-- The locals of a source with a body that has none of the four kinds of line
module _ (g : Gen) (h : IsLocal g.body) (r : ℕ) where
  pub gp_loads-count :
      count (gp_loads (gen_source g)) r
      ≡ (if g.tracer.gp_reg r && leb 1 r && ltb r 32 then 1 else 0)
  unfolding gp_loads count
  gp_loads-count =
      let k = gp_loads-IsReading in
      omega (
        arith,
        source_count gp_loads g r k,
        ap (λ l. count l r) h.no_gp_loads,
        append_used-count gp_loads k load_gp (λ s. refl) g.tracer.gp_reg 1 31 r,
        none_of gp_loads g.tracer.fp_reg load_fp 0 32 r k (λ s. refl),
        none_of gp_loads g.tracer.gp_reg save_gp 1 31 r k (λ s. refl),
        none_of gp_loads g.tracer.fp_reg save_fp 0 32 r k (λ s. refl),
      )

  pub fp_loads-count :
      count (fp_loads (gen_source g)) r
      ≡ (if g.tracer.fp_reg r && leb 0 r && ltb r 32 then 1 else 0)
  unfolding fp_loads count
  fp_loads-count =
      let k = fp_loads-IsReading in
      omega (
        arith,
        source_count fp_loads g r k,
        ap (λ l. count l r) h.no_fp_loads,
        append_used-count fp_loads k load_fp (λ s. refl) g.tracer.fp_reg 0 32 r,
        none_of fp_loads g.tracer.gp_reg load_gp 1 31 r k (λ s. refl),
        none_of fp_loads g.tracer.gp_reg save_gp 1 31 r k (λ s. refl),
        none_of fp_loads g.tracer.fp_reg save_fp 0 32 r k (λ s. refl),
      )

  pub gp_saves-count :
      count (gp_saves (gen_source g)) r
      ≡ (if g.tracer.gp_reg r && leb 1 r && ltb r 32 then 1 else 0)
  unfolding gp_saves count
  gp_saves-count =
      let k = gp_saves-IsReading in
      omega (
        arith,
        source_count gp_saves g r k,
        ap (λ l. count l r) h.no_gp_saves,
        append_used-count gp_saves k save_gp (λ s. refl) g.tracer.gp_reg 1 31 r,
        none_of gp_saves g.tracer.gp_reg load_gp 1 31 r k (λ s. refl),
        none_of gp_saves g.tracer.fp_reg load_fp 0 32 r k (λ s. refl),
        none_of gp_saves g.tracer.fp_reg save_fp 0 32 r k (λ s. refl),
      )

  pub fp_saves-count :
      count (fp_saves (gen_source g)) r
      ≡ (if g.tracer.fp_reg r && leb 0 r && ltb r 32 then 1 else 0)
  unfolding fp_saves count
  fp_saves-count =
      let k = fp_saves-IsReading in
      omega (
        arith,
        source_count fp_saves g r k,
        ap (λ l. count l r) h.no_fp_saves,
        append_used-count fp_saves k save_fp (λ s. refl) g.tracer.fp_reg 0 32 r,
        none_of fp_saves g.tracer.gp_reg load_gp 1 31 r k (λ s. refl),
        none_of fp_saves g.tracer.fp_reg load_fp 0 32 r k (λ s. refl),
        none_of fp_saves g.tracer.gp_reg save_gp 1 31 r k (λ s. refl),
      )
