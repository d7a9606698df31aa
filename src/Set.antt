-- ===== src/Set.antt =====
-- src/set.c: the set of addresses that code generation has visited, by open addressing.
pub mod Laws
pub mod Members
pub mod Free
use mathlib.Core.Bool.{not}
use riscvemu_study.Prelude.{
  ℕ, zero, suc, ◌+◌, ◌%◌, ◌==◌, if◌then◌else◌, Bool, true, false, update, Option, none, some, Run,
  ok, fault, assertion, ◌>>=◌, ◌>>◌, assert,
}

abbrev pub set_size : ℕ
set_size = 32768

abbrev pub max_search_count : ℕ
max_search_count = 32

-- 0 marks a free slot.
pub record Set : Type 0 where
  pub table : ℕ → ℕ

abbrev pub hash : ℕ → ℕ
hash elem = elem % set_size

-- The loop of `set_has`, on fuel (`none` is out of fuel). It does not move `index`.
unfoldable pub has_loop : ℕ → Set → ℕ → ℕ → Option Bool
has_loop zero s elem index = none
has_loop (suc fuel) s elem index =
    let rest = has_loop fuel s elem index in
    if s.table index == 0 then some false else if s.table index == elem then some true else rest

unfoldable pub set_has : ℕ → Set → ℕ → Run (Option Bool)
set_has fuel s elem = do assert (not (elem == 0)); ok (has_loop fuel s elem (hash elem))

-- The loop of `set_add`, with `left` more rounds before `++search_count` fails its assertion:
-- `none` is an early `return false`, and `some i` the free slot at which the loop ends.
unfoldable pub add_loop : ℕ → Set → ℕ → ℕ → Run (Option ℕ)
add_loop zero s elem index =
    if s.table index == 0
    then ok (some index)
    else if s.table index == elem
    then ok none
    else fault assertion
add_loop (suc left) s elem index =
    let rest = add_loop left s elem (hash (index + 1)) in
    if s.table index == 0 then ok (some index) else if s.table index == elem then ok none else rest

-- The returned flag, and the set after the call.
unfoldable pub store_free : Set → ℕ → Option ℕ → Bool × Set
store_free s elem none = (false, s)
store_free s elem (some i) = (true, record { table = update s.table i elem })

unfoldable pub set_add : Set → ℕ → Run (Bool × Set)
unfolding store_free
set_add s elem = do
  assert (not (elem == 0))
  slot ← add_loop max_search_count s elem (hash elem)
  ok (store_free s elem slot)

unfoldable pub set_reset : Set → Set
set_reset s = record { table = λ i. 0 }
