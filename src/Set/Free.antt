-- ===== src/Set/Free.antt =====
-- The free slots of the set.
use riscvemu_study.Prelude.{
  ℕ, zero, suc, ◌+◌, ◌≤◌, ◌<◌, ◌≡◌, ◌≢◌, ◌⊎◌, inl, inr, refl, ap, sym, ◌∙◌, arith, ◌==◌, Bool-cases,
  true, false, if◌then◌else◌, update, some, ok,
}
use riscvemu_study.Set.{Set, set_size, max_search_count, hash, add_loop, set_add}
use riscvemu_study.Set.Laws.{Added, present, stored, set_add-Added, set_add_ne, free_slot}
use riscvemu_study.Set.Members.{IsMember}

-- How many of the first `n` slots are free
unfoldable pub free_slots : (ℕ → ℕ) → ℕ → ℕ
free_slots table zero = 0
free_slots table (suc n) = free_slots table n + (if table n == 0 then 1 else 0)

pub free_slots_le : (table : ℕ → ℕ) (n : ℕ) → free_slots table n ≤ n
unfolding free_slots
free_slots_le table zero = omega arith
free_slots_le table (suc n) = ground (arith, free_slots_le table n)

free_slots_beyond :
    (table : ℕ → ℕ) (n k x : ℕ) → n ≤ k → free_slots (update table k x) n ≡ free_slots table n
unfolding free_slots
free_slots_beyond table zero k x h = refl
free_slots_beyond table (suc n) k x h = ground (arith, free_slots_beyond table n k x)

free_slots_fill :
    (table : ℕ → ℕ) (n k x : ℕ)
    → k < n
    → table k ≡ 0
    → x ≢ 0
    → suc (free_slots (update table k x) n) ≡ free_slots table n
unfolding free_slots
free_slots_fill table zero k x h p q = absurd (omega arith)
free_slots_fill table (suc n) k x h p q = elim (Bool-cases (n == k)) [
  | inl same ↦ let beyond = free_slots_beyond table n k x in ground arith
  | inr other ↦ let rest = free_slots_fill table n k x in ground arith
]

-- The loop stays inside the table.
pub add_loop_lt :
    (left : ℕ) (s : Set) (x i : ℕ) {j : ℕ}
    → i < set_size
    → add_loop left s x i ≡ ok (some j)
    → j < set_size
unfolding add_loop
add_loop_lt zero s x i h e = ground arith
add_loop_lt (suc left) s x i {j} h e =
    let next : hash (i + 1) < set_size = omega arith in
    ground (arith, add_loop_lt left s x (hash (i + 1)) {j = j} next)

-- The slot that a call of `set_add` fills.
pub record Fills (s : Set) (x : ℕ) (t : Set) : Type 0 where
  pub slot : ℕ
  pub inside : slot < set_size
  pub was_free : s.table slot ≡ 0
  pub filled : t ≡ record { table = update s.table slot x }

pub set_add-Fills : (s : Set) (x : ℕ) {t : Set} → set_add s x ≡ ok (true, t) → Fills s x t
set_add-Fills s x {t} e = go (set_add-Added s x e)
  where
    go : Added s x true t → Fills s x t
    go (present f g r) = absurd (cc)
    go (stored j f g r) = record {
      slot = j;
      inside = add_loop_lt max_search_count s x (hash x) (omega arith) r;
      was_free = free_slot max_search_count s x (hash x) r;
      filled = g;
    }

pub set_add_same : (s : Set) (x : ℕ) {t : Set} → set_add s x ≡ ok (false, t) → t ≡ s
set_add_same s x {t} e = go (set_add-Added s x e)
  where
    go : Added s x false t → t ≡ s
    go (present f g r) = g
    go (stored j f g r) = absurd (cc)

-- A call that answers true takes one free slot.
pub set_add-free_slots :
    (s : Set) (x : ℕ) {t : Set}
    → set_add s x ≡ ok (true, t)
    → suc (free_slots t.table set_size) ≡ free_slots s.table set_size
set_add-free_slots s x {t} e =
    let f = set_add-Fills s x e in
    ap (λ (u : Set). suc (free_slots u.table set_size)) f.filled
    ∙ free_slots_fill s.table set_size f.slot x f.inside f.was_free (set_add_ne s x e)

pub set_add-IsMember :
    (s : Set) (x : ℕ) {t : Set}
    → set_add s x ≡ ok (true, t)
    → (IsMember t x)
      × ((y : ℕ) → y ≢ 0 → IsMember s y → IsMember t y)
      × ((y : ℕ) → IsMember t y → (y ≡ x) ⊎ IsMember s y)
set_add-IsMember s x {t} e = (
  (f.slot, f.inside, at f.slot ∙ ground arith),
  λ y n (i, p, q). (i, p, at i ∙ ground (arith, f.was_free)),
  λ y (i, p, q). elim (Bool-cases (i == f.slot)) [
    | inl same ↦ inl (sym q ∙ (at i ∙ ground arith))
    | inr other ↦ inr (i, p, sym (at i ∙ ground arith) ∙ q)
  ],
)
  where
    f : Fills s x t
    f = set_add-Fills s x e

    at : (i : ℕ) → t.table i ≡ update s.table f.slot x i
    at i = ap (λ (u : Set). u.table i) f.filled
