-- ===== src/Codegen/Block/Reading.antt =====
-- What stands around the body in the source of a block.
use riscvemu_study.Prelude.{
  ℕ, zero, suc, ◌+◌, ◌≡◌, refl, ap, ◌∙◌, arith, if◌then◌else◌, Bool, true, false, List, [], ◌∷◌,
  ◌++◌, ok, chained,
}
use riscvemu_study.Stack.{Stack, stack_push, stack_reset}
use riscvemu_study.Stack.View.{contents, contains, below, stack_push-contents}
use riscvemu_study.Set.{set_reset}
use riscvemu_study.Codegen.Source.{
  Line, header, end_label, footer, load_gp, load_fp, save_gp, save_fp,
}
use riscvemu_study.Codegen.Tracer.{
  tracer_reset, append_used, tracer_append_prologue, tracer_append_epilogue,
}
use riscvemu_study.Codegen.Shape.{labels, jumps, gp_names, fp_names}
use riscvemu_study.Codegen.Shape.Append.{
  labels-append, jumps-append, gp_names-append, fp_names-append,
}
use riscvemu_study.Codegen.Block.{Gen, gen_start, gen_source}

-- A reading of lines that collects line by line, and finds nothing in the lines around the body
-- that are always the same.
pub record IsReading (f : List Line → List ℕ) : Type 0 where
  pub empty : f [] ≡ []
  pub append : (ls ms : List Line) → f (ls ++ ms) ≡ f ls ++ f ms
  pub around : (f (header ∷ []) ≡ []) × (f (end_label ∷ []) ≡ []) × (f (footer ∷ []) ≡ [])

-- And finds nothing in the declarations and the assignments back
pub record IsOfBody (f : List Line → List ℕ) : Type 0 where
  pub loads : (r : ℕ) → (f (load_gp r ∷ []) ≡ []) × (f (load_fp r ∷ []) ≡ [])
  pub saves : (r : ℕ) → (f (save_gp r ∷ []) ≡ []) × (f (save_fp r ∷ []) ≡ [])

pub labels-IsReading : IsReading labels
unfolding labels
labels-IsReading = record { empty = refl; append = labels-append; around = (refl, refl, refl) }

pub labels-IsOfBody : IsOfBody labels
unfolding labels
labels-IsOfBody = record { loads = λ r. (refl, refl); saves = λ r. (refl, refl) }

pub jumps-IsReading : IsReading jumps
unfolding jumps
jumps-IsReading = record { empty = refl; append = jumps-append; around = (refl, refl, refl) }

pub jumps-IsOfBody : IsOfBody jumps
unfolding jumps
jumps-IsOfBody = record { loads = λ r. (refl, refl); saves = λ r. (refl, refl) }

pub gp_names-IsReading : IsReading gp_names
unfolding gp_names
gp_names-IsReading = record { empty = refl; append = gp_names-append; around = (refl, refl, refl) }

pub gp_names-IsOfBody : IsOfBody gp_names
unfolding gp_names
gp_names-IsOfBody = record { loads = λ r. (refl, refl); saves = λ r. (refl, refl) }

pub fp_names-IsReading : IsReading fp_names
unfolding fp_names
fp_names-IsReading = record { empty = refl; append = fp_names-append; around = (refl, refl, refl) }

pub fp_names-IsOfBody : IsOfBody fp_names
unfolding fp_names
fp_names-IsOfBody = record { loads = λ r. (refl, refl); saves = λ r. (refl, refl) }

pub ++-empty : (xs : List ℕ) → xs ++ [] ≡ xs
++-empty [] = refl
++-empty (x ∷ xs) = ap (λ l. x ∷ l) (++-empty xs)

module _ (f : List Line → List ℕ) (h : IsReading f) where
  pub both_empty : (ls ms : List Line) → f ls ≡ [] → f ms ≡ [] → f (ls ++ ms) ≡ []
  both_empty ls ms p q = ground (arith, h.append ls ms)

  pub append_used_empty :
      (used : ℕ → Bool) (line : ℕ → Line) (i left : ℕ)
      → ((r : ℕ) → f (line r ∷ []) ≡ [])
      → f (append_used used line i left) ≡ []
  unfolding append_used
  append_used_empty used line i zero k = h.empty
  append_used_empty used line i (suc left) k =
      both_empty (if used i then line i ∷ [] else []) _ (here (used i))
        (append_used_empty used line (i + 1) left k)
    where
      here : (b : Bool) → f (if b then line i ∷ [] else []) ≡ []
      here true = k i
      here false = h.empty

  -- The three parts of the source
  pub gen_source-parts :
      (g : Gen)
      → f (gen_source g)
        ≡ f (tracer_append_prologue g.tracer) ++ (f g.body ++ f (tracer_append_epilogue g.tracer))
  unfolding gen_source
  gen_source-parts g =
      let ending = tracer_append_epilogue g.tracer ++ footer ∷ [] in
      let rest = g.body ++ end_label ∷ ending in
      let last =
        h.append (end_label ∷ []) ending
        ∙ (ap (λ l. l ++ f ending) h.around.1
            ∙ (h.append (tracer_append_epilogue g.tracer) (footer ∷ [])
                ∙ (ap (λ l. f (tracer_append_epilogue g.tracer) ++ l) h.around.2
                    ∙ ++-empty (f (tracer_append_epilogue g.tracer))))) in
      h.append (header ∷ []) (tracer_append_prologue g.tracer ++ rest)
      ∙ (ap (λ l. l ++ f (tracer_append_prologue g.tracer ++ rest)) h.around.0
          ∙ (h.append (tracer_append_prologue g.tracer) rest
              ∙ ap (λ l. f (tracer_append_prologue g.tracer) ++ l)
                  (h.append g.body (end_label ∷ ending) ∙ ap (λ l. f g.body ++ l) last)))

  module _ (k : IsOfBody f) where
    -- The reading of the source is that of the body.
    pub gen_source-reading : (g : Gen) → f (gen_source g) ≡ f g.body
    unfolding tracer_append_prologue tracer_append_epilogue
    gen_source-reading g =
        let before =
          both_empty (append_used g.tracer.gp_reg load_gp 1 31)
            (append_used g.tracer.fp_reg load_fp 0 32)
            (append_used_empty _ _ _ _ (λ r. (k.loads r).0))
            (append_used_empty _ _ _ _ (λ r. (k.loads r).1)) in
        let after =
          both_empty (append_used g.tracer.gp_reg save_gp 1 31)
            (append_used g.tracer.fp_reg save_fp 0 32)
            (append_used_empty _ _ _ _ (λ r. (k.saves r).0))
            (append_used_empty _ _ _ _ (λ r. (k.saves r).1)) in
        gen_source-parts g
        ∙ (ap (λ l. l ++ (f g.body ++ f (tracer_append_epilogue g.tracer))) before
            ∙ (ap (λ l. f g.body ++ l) after ∙ ++-empty (f g.body)))

-- What the loop starts from.
pub record Started (pc : ℕ) (old g : Gen) : Type 0 where
  pub body : g.body ≡ []
  pub tracer : g.tracer ≡ tracer_reset
  pub set : g.set ≡ set_reset old.set
  pub insn : g.insn ≡ old.insn
  pub waiting : contents g.stack ≡ pc ∷ []

reset_contents : (s : Stack) → contents (stack_reset s) ≡ []
unfolding contents stack_reset below
reset_contents s = refl

pub gen_start-Started : (pc : ℕ) (old : Gen) {g : Gen} → gen_start pc old ≡ ok g → Started pc old g
unfolding gen_start contains
gen_start-Started pc old e =
    let push = chained (stack_push (stack_reset old.stack) pc) e in
    let pushed = stack_push-contents (stack_reset old.stack) pc in
    let fresh = reset_contents old.stack in
    record {
      body = ground (arith, push.second);
      tracer = ground (arith, push.second);
      set = ground (arith, push.second);
      insn = ground (arith, push.second);
      waiting = ground (arith, push.first, push.second, pushed);
    }
