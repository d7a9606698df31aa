-- ===== src/Set/Members.antt =====
-- The set as the addresses in its table.
use mathlib.Core.Path.{subst}
use riscvemu_study.Prelude.{
  ℕ, zero, suc, ◌+◌, ◌<◌, ◌≡◌, ◌≢◌, ◌↔◌, inl, inr, refl, sym, ap, ◌∙◌, arith, ◌==◌, Bool,
  Bool-cases, false, none, ok,
}
use riscvemu_study.Set.{Set, set_size, max_search_count, hash, add_loop, set_add, set_reset}
use riscvemu_study.Set.Laws.{
  Found, Added, present, stored, set_add-Added, set_add_self, set_add_keeps, set_add_ne,
}

abbrev pub IsMember : Set → ℕ → Type 0
IsMember s x = (i : ℕ) × (i < set_size) × (s.table i ≡ x)

-- Every address in the table is found.
abbrev pub IsProbed : Set → Type 0
IsProbed s = (i : ℕ) → i < set_size → s.table i ≢ 0 → Found s (s.table i)

-- The loop stays inside the table.
add_loop-IsMember :
    (left : ℕ) (s : Set) (x i : ℕ) → i < set_size → add_loop left s x i ≡ ok none → IsMember s x
add_loop-IsMember zero s x i h e = (i, h, unfold add_loop in ground arith)
add_loop-IsMember (suc left) s x i h e = elim (Bool-cases (s.table i == x)) [
  | inl same ↦ (i, h, ground arith)
  | inr other ↦
      add_loop-IsMember left s x (hash (i + 1)) (omega arith) (unfold add_loop in ground arith)
]

-- A call of `set_add` that returns keeps every address in the table findable.
pub set_add-IsProbed :
    (s : Set) (x : ℕ) {b : Bool} {t : Set} → IsProbed s → set_add s x ≡ ok (b, t) → IsProbed t
set_add-IsProbed s x {b} {t} h e i p q = go (set_add-Added s x e)
  where
    go : Added s x b t → Found t (t.table i)
    go (present f g r) =
        set_add_keeps s x (t.table i)
          (subst (λ (k : ℕ). Found s k) (ap (λ (u : Set). u.table i) (sym g))
            (h i p (λ z. q (ap (λ (u : Set). u.table i) g ∙ z))))
          e
    go (stored j f g r) = elim (Bool-cases (i == j)) [
      | inl same ↦
          subst (λ k. Found t k) (sym (ap (λ (u : Set). u.table i) g ∙ ground arith))
            (set_add_self s x e)
      | inr other ↦
          let old : t.table i ≡ s.table i = ap (λ (u : Set). u.table i) g ∙ ground arith in
          set_add_keeps s x (t.table i)
            (subst (λ k. Found s k) (sym old) (h i p (λ z. q (old ∙ z)))) e
    ]

-- Where every address in the table is findable, a call of `set_add` that returns answers false
-- exactly when the address is in the table already.
pub set_add_iff :
    (s : Set) (x : ℕ) {b : Bool} {t : Set}
    → IsProbed s
    → set_add s x ≡ ok (b, t)
    → (b ≡ false) ↔ IsMember s x
set_add_iff s x {b} {t} h e = (to (set_add-Added s x e), from)
  where
    to : Added s x b t → b ≡ false → IsMember s x
    to (present f g r) z = add_loop-IsMember max_search_count s x (hash x) (omega arith) r
    to (stored j f g r) z = absurd (cc)

    from : IsMember s x → b ≡ false
    from (i, p, q) =
        let found = h i p (λ z. set_add_ne s x e (sym q ∙ z)) in
        let again : set_add s x ≡ ok (false, s) = subst (λ k. Found s k) q found in ground arith

-- The empty set has no address to find.
pub set_reset-IsProbed : (s : Set) → IsProbed (set_reset s)
unfolding set_reset
set_reset-IsProbed s i p q = absurd (q refl)
