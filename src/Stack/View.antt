-- ===== src/Stack/View.antt =====
-- The stack as the list of its elements, oldest first, and its operations on that list.
use mathlib.Core.Path.{ap₂, subst}
use native.Mathlib.Numerals.{add-one}
use native.Mathlib.Nat.{le_refl}
use riscvemu_study.Prelude.{
  ℕ, zero, suc, ◌+◌, ◌≤◌, ◌<◌, ◌≡◌, ◌≢◌, refl, arith, ◌==◌, ltb, if◌then◌else◌, Bool, Bool-cases,
  true, false, inl, inr, List, [], ◌∷◌, ◌++◌, update, ok, fault, map_run, ◌⊎◌, assertion,
}
use riscvemu_study.Stack.{Stack, stack_cap, has_duplicate, stack_push, stack_pop}

-- The elements below index `n`.
unfoldable pub below : (ℕ → ℕ) → ℕ → List ℕ
below elems zero = []
below elems (suc n) = below elems n ++ elems n ∷ []

unfoldable pub contents : Stack → List ℕ
unfolding below
contents s = below s.elems s.top

unfoldable pub contains : List ℕ → ℕ → Bool
contains [] x = false
contains (y ∷ ys) x = if y == x then true else contains ys x

pub below-update : (elems : ℕ → ℕ) (n k x : ℕ) → n ≤ k → below (update elems k x) n ≡ below elems n
unfolding below
below-update elems zero k x h = refl
below-update elems (suc n) k x h =
    ap₂ (λ l e. l ++ e ∷ []) (below-update elems n k x (omega arith)) (ground arith)

contains_snoc :
    (ys : List ℕ) (y x : ℕ) → contains (ys ++ y ∷ []) x ≡ (if contains ys x then true else y == x)
unfolding contains
contains_snoc [] y x = ground arith
contains_snoc (z ∷ ys) y x = ground (arith, contains_snoc ys y x)

-- The loop as a search of the indices from `i` on.
pub has_duplicate-false :
    (elems : ℕ → ℕ) (x i left k : ℕ)
    → has_duplicate elems x i left ≡ false
    → i ≤ k
    → k < i + left
    → elems k ≢ x
unfolding has_duplicate
has_duplicate-false elems x i zero k e p q = absurd (omega arith)
has_duplicate-false elems x i (suc left) k e p q = elim (Bool-cases (i == k)) [
  | inl same ↦ ground arith
  | inr other ↦
      has_duplicate-false elems x (i + 1) left k (ground arith) (ground arith) (omega arith)
]

snoc_duplicate :
    (elems : ℕ → ℕ) (x i left : ℕ)
    → has_duplicate elems x i (suc left)
      ≡ (if has_duplicate elems x i left then true else elems (i + left) == x)
unfolding has_duplicate
snoc_duplicate elems x i zero = ground arith
snoc_duplicate elems x i (suc left) = ground (arith, snoc_duplicate elems x (i + 1) left)

has_duplicate-contains :
    (elems : ℕ → ℕ) (x n : ℕ) → has_duplicate elems x 0 n ≡ contains (below elems n) x
unfolding below
has_duplicate-contains elems x zero = unfold has_duplicate contains in refl
has_duplicate-contains elems x (suc n) = ground (
  arith,
  snoc_duplicate elems x 0 n,
  contains_snoc (below elems n) (elems n) x,
  has_duplicate-contains elems x n,
)

pub below_snoc :
    (elems : ℕ → ℕ) (n x : ℕ) → below (update elems n x) (n + 1) ≡ below elems n ++ x ∷ []
unfolding below
below_snoc elems n x =
    rw add-one (ap₂ (λ l e. l ++ e ∷ []) (below-update elems n n x (le_refl _)) (ground arith))

push_at :
    (n : ℕ) (elems : ℕ → ℕ) (x : ℕ)
    → let s : Stack = record { top = n; elems = elems } in
      map_run contents (stack_push s x) ≡ (
        if ltb n stack_cap
        then ok (if contains (contents s) x then contents s else contents s ++ x ∷ [])
        else fault assertion)
unfolding stack_push contents
push_at n elems x = elim (Bool-cases (ltb n stack_cap)) [
  | inr full ↦ ground arith
  | inl room ↦ elim (Bool-cases (has_duplicate elems x 0 n)) [
    | inl dup ↦ ground (arith, has_duplicate-contains elems x n)
    | inr fresh ↦ ground (arith, has_duplicate-contains elems x n, below_snoc elems n x)
  ]
]

-- On the list of its contents, a push below the capacity appends `x`, unless the contents hold
-- it already, when it changes nothing; on a full stack it fails its assertion.
pub stack_push-contents :
    (s : Stack) (x : ℕ)
    → map_run contents (stack_push s x) ≡ (
        if ltb s.top stack_cap
        then ok (if contains (contents s) x then contents s else contents s ++ x ∷ [])
        else fault assertion)
stack_push-contents s x = push_at s.top s.elems x

pop_at :
    (n : ℕ) (elems : ℕ → ℕ) (x : ℕ)
    → let s : Stack = record { top = n; elems = elems } in
      let (popped, y, t) = stack_pop s x in
      ((contents s ≡ []) × (popped ≡ false) × (y ≡ x) × (t ≡ s))
      ⊎ ((contents s ≡ contents t ++ y ∷ []) × (popped ≡ true))
unfolding stack_pop contents
pop_at zero elems x = inl (refl, refl, refl, refl)
pop_at (suc n) elems x = inr (ground arith, ground arith)

-- A pop of an empty stack returns false and changes neither the stack nor `*elem`; of any other
-- it returns true, and takes the last of the contents off into `*elem`.
pub stack_pop-contents :
    (s : Stack) (x : ℕ)
    → let (popped, y, t) = stack_pop s x in
      ((contents s ≡ []) × (popped ≡ false) × (y ≡ x) × (t ≡ s))
      ⊎ ((contents s ≡ contents t ++ y ∷ []) × (popped ≡ true))
stack_pop-contents s x = pop_at s.top s.elems x

-- No more than 256 elements, and no two the same.
pub record IsStack (s : Stack) : Type 0 where
  pub fits : s.top ≤ stack_cap
  pub distinct : (i j : ℕ) → i < j → j < s.top → s.elems i ≢ s.elems j

-- A push that returns keeps the stack within its 256 elements and without duplicates.
pub stack_push-IsStack :
    (s : Stack) (x : ℕ) {t : Stack} → IsStack s → stack_push s x ≡ ok t → IsStack t
unfolding stack_push
stack_push-IsStack s x {t} h e = elim (Bool-cases (has_duplicate s.elems x 0 s.top)) [
  | inl dup ↦ let same : s ≡ t = ground arith in subst IsStack same h
  | inr fresh ↦ record {
    fits = ground arith;
    distinct =
        λ i j p q. ground (arith, h.distinct i j, has_duplicate-false s.elems x 0 s.top i fresh);
  }
]

pub stack_pop-IsStack : (s : Stack) (x : ℕ) → IsStack s → IsStack (stack_pop s x).2
unfolding stack_pop
stack_pop-IsStack s x h = record {
  fits = ground (arith, h.fits);
  distinct = λ i j p q. ground (arith, h.distinct i j);
}
