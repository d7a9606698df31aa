-- ===== src/Set/Laws.antt =====
-- The loops of `set_add` and `set_has`.
use mathlib.Core.Path.{subst}
use riscvemu_study.Prelude.{
  ℕ, zero, suc, ◌+◌, ◌≡◌, ◌≢◌, ◌⊎◌, inl, inr, ◌==◌, if◌then◌else◌, refl, sym, arith, Bool, true,
  false, update, Option, none, some, Run, ok, fault,
}
use riscvemu_study.Set.{Set, set_has, max_search_count, hash, has_loop, add_loop, set_add}

-- An address that is in the table on its probe path.
abbrev pub Found : Set → ℕ → Type 0
Found s elem = set_add s elem ≡ ok (false, s)

-- A free slot at which the loop ends is free.
pub free_slot :
    (left : ℕ) (s : Set) (x i : ℕ) {j : ℕ} → add_loop left s x i ≡ ok (some j) → s.table j ≡ 0
unfolding add_loop
free_slot zero s x i {j} e = ground arith
free_slot (suc left) s x i {j} e = ground (arith, free_slot left s x (hash (i + 1)) {j = j})

-- A write to a free slot hides nothing from a probe.
found_after :
    (left : ℕ) (s : Set) (x y i j : ℕ)
    → s.table j ≡ 0
    → add_loop left s y i ≡ ok none
    → add_loop left (record { table = update s.table j x }) y i ≡ ok none
unfolding add_loop
found_after zero s x y i j h e = ground arith
found_after (suc left) s x y i j h e = ground (arith, found_after left s x y (hash (i + 1)) j)

-- What is written to the free slot is found there.
found_self :
    (left : ℕ) (s : Set) (x i : ℕ) {j : ℕ}
    → x ≢ 0
    → add_loop left s x i ≡ ok (some j)
    → add_loop left (record { table = update s.table j x }) x i ≡ ok none
unfolding add_loop
found_self zero s x i h e = ground arith
found_self (suc left) s x i {j} h e =
    ground
      (arith, free_slot left s x (hash (i + 1)) {j = j}, found_self left s x (hash (i + 1)) {j = j})

-- `set_add`, split on what its loop finds.
set_add_present :
    (s : Set) (x : ℕ) → x ≢ 0 → add_loop max_search_count s x (hash x) ≡ ok none → Found s x
unfolding set_add
set_add_present s x h e = ground arith

Found-loop : (s : Set) (x : ℕ) → Found s x → add_loop max_search_count s x (hash x) ≡ ok none
unfolding set_add
Found-loop s x e = ground arith

Found-ne : (s : Set) (x : ℕ) → Found s x → x ≢ 0
unfolding set_add
Found-ne s x e = ground arith

-- The loop's answer behind a call that returns.
pub data Added (s : Set) (x : ℕ) (b : Bool) (t : Set) : Type 0 where
  present : b ≡ false → t ≡ s → add_loop max_search_count s x (hash x) ≡ ok none → Added s x b t
  stored :
      (j : ℕ)
      → b ≡ true
      → t ≡ record { table = update s.table j x }
      → add_loop max_search_count s x (hash x) ≡ ok (some j)
      → Added s x b t

pub set_add_ne : (s : Set) (x : ℕ) {r : Bool × Set} → set_add s x ≡ ok r → x ≢ 0
unfolding set_add
set_add_ne s x e = ground arith

pub set_add-Added : (s : Set) (x : ℕ) {b : Bool} {t : Set} → set_add s x ≡ ok (b, t) → Added s x b t
unfolding set_add
set_add-Added s x {b} {t} e = go (add_loop max_search_count s x (hash x)) refl
  where
    go : (r : Run (Option ℕ)) → add_loop max_search_count s x (hash x) ≡ r → Added s x b t
    go (fault f) q = absurd (ground arith)
    go (ok none) q = present (ground arith) (ground arith) q
    go (ok (some j)) q = stored j (ground arith) (ground arith) q

pub set_add_self : (s : Set) (x : ℕ) {b : Bool} {t : Set} → set_add s x ≡ ok (b, t) → Found t x
set_add_self s x e = go (set_add-Added s x e)
  where
    go : {b : Bool} {t : Set} → Added s x b t → Found t x
    go (present p q r) = subst (λ u. Found u x) (sym q) (set_add_present s x (set_add_ne s x e) r)
    go (stored j p q r) =
        subst (λ u. Found u x) (sym q)
          (set_add_present _ x (set_add_ne s x e)
            (found_self max_search_count s x (hash x) {j = j} (set_add_ne s x e) r))

pub set_add_keeps :
    (s : Set) (x y : ℕ) {b : Bool} {t : Set} → Found s y → set_add s x ≡ ok (b, t) → Found t y
set_add_keeps s x y f e = go (set_add-Added s x e)
  where
    go : {b : Bool} {t : Set} → Added s x b t → Found t y
    go (present p q r) = subst (λ u. Found u y) (sym q) f
    go (stored j p q r) =
        subst (λ u. Found u y) (sym q)
          (set_add_present _ y (Found-ne s y f) (
            found_after max_search_count s x y (hash y) j
              (free_slot max_search_count s x (hash x) {j = j} r) (Found-loop s y f)))

-- After `set_add` returns for `x`, any `y` that is `x` or was found before is found: a further
-- `set_add` of it returns false and changes nothing.
pub set_add-Found :
    (s : Set) (x y : ℕ) {b : Bool} {t : Set}
    → (y ≡ x) ⊎ Found s y
    → set_add s x ≡ ok (b, t)
    → Found t y
set_add-Found s x y {t = t} (inl same) e = subst (Found t) (sym same) (set_add_self s x e)
set_add-Found s x y (inr f) e = set_add_keeps s x y f e

has_loop_stuck :
    (fuel : ℕ) (s : Set) (x i : ℕ) → s.table i ≢ 0 → s.table i ≢ x → has_loop fuel s x i ≡ none
unfolding has_loop
has_loop_stuck zero s x i p q = refl
has_loop_stuck (suc fuel) s x i p q = ground (arith, has_loop_stuck fuel s x i p q)

-- On any fuel but 0, `set_has` answers false if the home slot of the address is free and true if that
-- holds the address; otherwise it never ends, whatever the table holds elsewhere.
pub set_has_lem :
    (s : Set) (x fuel : ℕ)
    → x ≢ 0
    → set_has (suc fuel) s x
      ≡ ok (
          if s.table (hash x) == 0
          then some false
          else if s.table (hash x) == x
          then some true
          else none)
unfolding set_has has_loop
set_has_lem s x fuel h = ground (arith, has_loop_stuck fuel s x (hash x))
