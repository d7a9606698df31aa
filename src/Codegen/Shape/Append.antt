-- ===== src/Codegen/Shape/Append.antt =====
-- The readings of lines, over lines that follow each other.
use riscvemu_study.Prelude.{
  ℕ, ◌+◌, ◌≡◌, refl, ap, arith, ◌==◌, if◌then◌else◌, List, [], ◌∷◌, ◌++◌, Option, some, none,
}
use riscvemu_study.Codegen.Source.{Line}
use riscvemu_study.Codegen.Source
use riscvemu_study.Codegen.Shape.{labels, jumps, gp_names, fp_names, Place, scan_line, scan}

-- How often an address stands in a list
unfoldable pub count : List ℕ → ℕ → ℕ
count [] x = 0
count (y ∷ ys) x = (if y == x then 1 else 0) + count ys x

pub count-append : (xs ys : List ℕ) (x : ℕ) → count (xs ++ ys) x ≡ count xs x + count ys x
unfolding count
count-append [] ys x = omega arith
count-append (y ∷ xs) ys x = omega (arith, count-append xs ys x)

pub labels-append : (ls ms : List Line) → labels (ls ++ ms) ≡ labels ls ++ labels ms
unfolding labels
labels-append [] ms = refl
labels-append (Source.open_insn pc ∷ ls) ms = ap (λ l. pc ∷ l) (labels-append ls ms)
labels-append (_ ∷ ls) ms = labels-append ls ms

pub jumps-append : (ls ms : List Line) → jumps (ls ++ ms) ≡ jumps ls ++ jumps ms
unfolding jumps
jumps-append [] ms = refl
jumps-append (Source.goto_insn pc ∷ ls) ms = ap (λ l. pc ∷ l) (jumps-append ls ms)
jumps-append (Source.branch typ op pc ∷ ls) ms = ap (λ l. pc ∷ l) (jumps-append ls ms)
jumps-append (_ ∷ ls) ms = jumps-append ls ms

pub gp_names-append : (ls ms : List Line) → gp_names (ls ++ ms) ≡ gp_names ls ++ gp_names ms
unfolding gp_names
gp_names-append [] ms = refl
gp_names-append (Source.get_gp x r ∷ ls) ms = ap (λ l. r ∷ l) (gp_names-append ls ms)
gp_names-append (Source.set_gp r e ∷ ls) ms = ap (λ l. r ∷ l) (gp_names-append ls ms)
gp_names-append (_ ∷ ls) ms = gp_names-append ls ms

pub fp_names-append : (ls ms : List Line) → fp_names (ls ++ ms) ≡ fp_names ls ++ fp_names ms
unfolding fp_names
fp_names-append [] ms = refl
fp_names-append (Source.get_fp typ x v r ∷ ls) ms = ap (λ l. r ∷ l) (fp_names-append ls ms)
fp_names-append (Source.set_fp v r e ∷ ls) ms = ap (λ l. r ∷ l) (fp_names-append ls ms)
fp_names-append (_ ∷ ls) ms = fp_names-append ls ms

pub scan-append :
    (p : Place) (ls ms : List Line) {q : Place} → scan p ls ≡ some q → scan p (ls ++ ms) ≡ scan q ms
unfolding scan
scan-append p [] ms e = ground arith
scan-append p (l ∷ ls) ms {q} e = go (scan_line p l) refl (λ r. scan-append r ls ms)
  where
    go :
        (o : Option Place)
        → scan_line p l ≡ o
        → ((r : Place) → scan r ls ≡ some q → scan r (ls ++ ms) ≡ scan q ms)
        → scan p (l ∷ ls ++ ms) ≡ scan q ms
    go none h k = absurd (ground arith)
    go (some r) h k = ground (arith, k r)
