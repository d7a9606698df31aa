-- ===== src/Codegen/Block/Pending.antt =====
-- What the code of an instruction adds to the labels, the jumps and the addresses that wait.
use mathlib.Core.Path.{subst}
use riscvemu_study.Prelude.{
  ℕ, ◌+◌, ◌<◌, ◌≡◌, ◌⊎◌, inl, inr, refl, sym, ap, ◌∙◌, arith, ◌==◌, Bool-cases, if◌then◌else◌, Bool,
  true, false, ◌||◌, List, [], ◌∷◌, ◌++◌, u64, ok, chained,
}
use riscvemu_study.State.{Memory}
use riscvemu_study.Stack.{Stack, stack_push}
use riscvemu_study.Stack.View.{contents, contains, stack_push-contents}
use riscvemu_study.Interp.Control.{insn_size}
use riscvemu_study.Codegen.Source.{Line, open_insn}
use riscvemu_study.Codegen.Shape.{labels, jumps}
use riscvemu_study.Codegen.Shape.Append.{count, count-append, labels-append, jumps-append}
use riscvemu_study.Codegen.Shape.Operations.{emit-jumps}
use riscvemu_study.Codegen.Block.{Gen, push_all}
use riscvemu_study.Codegen.Block.Round.{Visit, fall_through}

contains-count : (xs : List ℕ) (x : ℕ) → contains xs x ≡ true → 0 < count xs x
unfolding contains count
contains-count [] x e = absurd (cc)
contains-count (y ∷ xs) x e = ground (arith, contains-count xs x)

-- An address waits on the stack.
abbrev pub IsPending : Stack → ℕ → Type 0
IsPending s x = 0 < count (contents s) x

-- What waits on the first stack waits on the second.
abbrev Extends : Stack → Stack → Type 0
Extends s t = (y : ℕ) → IsPending s y → IsPending t y

stack_push-IsPending :
    (s : Stack) (x : ℕ) {t : Stack} → stack_push s x ≡ ok t → Extends s t × IsPending t x
unfolding count
stack_push-IsPending s x {t} e =
    let pushed = stack_push-contents s x in
    let known = contains-count (contents s) x in
    let more = count-append (contents s) (x ∷ []) in
    (λ y h. ground (arith, pushed, more y), ground (arith, pushed, more x, known))

push_all-IsPending :
    (xs : List ℕ) (s : Stack) {t : Stack}
    → push_all xs s ≡ ok t
    → Extends s t × ((y : ℕ) → 0 < count xs y → IsPending t y)
unfolding push_all count
push_all-IsPending [] s {t} e =
    let same : s ≡ t = ground arith in
    (λ y h. subst (λ u. IsPending u y) same h, λ y h. absurd (omega arith))
push_all-IsPending (x ∷ xs) s {t} e =
    let push = chained (stack_push s x) e in
    let (keeps, top) = stack_push-IsPending s x push.first in
    let (rest, more) = push_all-IsPending xs push.between push.second in
    (
      λ y h. rest y (keeps y h),
      λ y h. elim (Bool-cases (x == y)) [
        | inl same ↦ rest y (subst (λ k. IsPending push.between k) (ground arith) top)
        | inr other ↦ more y (ground arith)
      ],
    )

next-IsPending :
    (cont : Bool) (s : Stack) (next : ℕ) {t : Stack}
    → (if cont then ok s else stack_push s next) ≡ ok t
    → Extends s t × ((y : ℕ) → 0 < count (jumps (fall_through cont next)) y → IsPending t y)
unfolding jumps
next-IsPending true s next e = push_all-IsPending [] s (unfold push_all in e)
next-IsPending false s next {t} e =
    let (keeps, top) = stack_push-IsPending s next e in
    (keeps, λ y h. subst (λ k. IsPending t k) {x = next} (unfold count in ground arith) top)

fall_through-labels : (cont : Bool) (next : ℕ) → labels (fall_through cont next) ≡ []
unfolding labels
fall_through-labels true next = refl
fall_through-labels false next = refl

-- What the code of one instruction adds.
pub record Adds (pc : ℕ) (g g' : Gen) : Type 0 where
  pub label : labels g'.body ≡ labels g.body ++ pc ∷ []
  pub jump :
      (y : ℕ) → 0 < count (jumps g'.body) y → (0 < count (jumps g.body) y) ⊎ IsPending g'.stack y
  pub keeps : Extends g.stack g'.stack
  pub set : g'.set ≡ g.set

pub Visit-Adds :
    (memory : Memory) (pc : ℕ) (g : Gen) {g' : Gen} → Visit memory pc g g' → Adds pc g g'
unfolding labels jumps
Visit-Adds memory pc g {g'} v = record {
  label =
      ap labels body
      ∙ (labels-append g.body (open_insn pc ∷ (v.emission.lines ++ falling))
          ∙ ap (λ l. labels g.body ++ pc ∷ l)
              (labels-append v.emission.lines falling
                ∙ ground (
                  arith,
                  emit-jumps v.insn.type v.insn pc v.emitted,
                  fall_through-labels cont next,
                )));
  jump = λ y h. elim (Bool-cases (count (jumps g.body) y == 0)) [
    | inr before ↦ inl (ground arith)
    | inl now ↦ inr (
        subst (λ s. IsPending s y) (sym stack)
          (elim (Bool-cases (count v.emission.targets y == 0)) [
            | inr target ↦ on y (targets y (ground arith))
            | inl other ↦ falls y (ground (arith, added y))
          ]))
  ];
  keeps = λ y h. subst (λ s. IsPending s y) (sym stack) (on y (keeps y h));
  set = ap (λ (h : Gen). h.set) v.result;
}
  where
    cont : Bool
    cont = v.insn.cont || v.emission.deferred

    next : ℕ
    next = u64 (pc + insn_size v.insn)

    falling : List Line
    falling = fall_through cont next

    body : g'.body ≡ g.body ++ open_insn pc ∷ (v.emission.lines ++ falling)
    body = ap (λ (h : Gen). h.body) v.result

    stack : g'.stack ≡ v.rest
    stack = ap (λ (h : Gen). h.stack) v.result

    keeps : Extends g.stack v.pushed
    keeps = (push_all-IsPending v.emission.targets g.stack v.targets).0

    targets : (y : ℕ) → 0 < count v.emission.targets y → IsPending v.pushed y
    targets = (push_all-IsPending v.emission.targets g.stack v.targets).1

    on : Extends v.pushed v.rest
    on = (next-IsPending cont v.pushed next v.next).0

    falls : (y : ℕ) → 0 < count (jumps falling) y → IsPending v.rest y
    falls = (next-IsPending cont v.pushed next v.next).1

    added :
        (y : ℕ)
        → count (jumps g'.body) y
          ≡ count (jumps g.body) y + (count v.emission.targets y + count (jumps falling) y)
    added y =
        ap (λ l. count (jumps l) y) body
        ∙ (ap (λ l. count l y) (jumps-append g.body (open_insn pc ∷ (v.emission.lines ++ falling)))
            ∙ (count-append (jumps g.body) (jumps (v.emission.lines ++ falling)) y
                ∙ ap (λ n. count (jumps g.body) y + n)
                    (ap (λ l. count l y) (jumps-append v.emission.lines falling)
                      ∙ (count-append (jumps v.emission.lines) (jumps falling) y
                          ∙ ap (λ l. count l y + count (jumps falling) y)
                              (emit-jumps v.insn.type v.insn pc v.emitted).0))))
