-- ===== src/Tests/Containers.antt =====
-- The theorems on the stack, the set and the code cache at small tables.
use riscvemu_study.Prelude.{
  inl, ℕ, ◌+◌, ◌*◌, ◌≤◌, ◌<◌, ◌≡◌, ◌≢◌, ◌↔◌, refl, arith, true, false, none, some, List, [], ◌∷◌,
  ok, fault, assertion, map_run, ltb, ◌++◌, ◌⊎◌, update, ◌==◌, if◌then◌else◌,
}
use Prim.Native.Nat.{min}
use riscvemu_study.Stack.{Stack, stack_cap, has_duplicate, stack_push, stack_pop}
use riscvemu_study.Stack.View.{
  contents, contains, IsStack, stack_push-IsStack, stack_push-contents, stack_pop-contents,
}
use riscvemu_study.Set.{Set, has_loop, set_has, add_loop, store_free, set_add, set_reset}
use riscvemu_study.Set.Laws.{Found, set_add-Found, set_has_lem}
use riscvemu_study.Set.Members.{
  IsMember, IsProbed, set_add-IsProbed, set_add_iff, set_reset-IsProbed,
}
use riscvemu_study.Cache.{
  Cache, CacheItem, new_cache, lookup_loop, code_at, found_code, cache_lookup, probe, align_to,
  copy_bytes, cache_add, bump, count_at, cache_hot, cache_hot_count, max_search_count, hash,
}
use riscvemu_study.Cache.Counter.{Counts, hot_run, hot_run_lem, cache_hot_other}
use riscvemu_study.Cache.Lookup.{Stored, cache_lookup-cache_add}

abbrev empty_stack : Stack
empty_stack = record { top = 0; elems = λ i. 0 }

empty-IsStack : IsStack empty_stack
empty-IsStack = record { fits = omega arith; distinct = λ i j p q. absurd (omega arith) }

abbrev pushed : Stack
pushed = record { top = 1; elems = update (λ i. 0) 0 7 }

push_runs : stack_push empty_stack 7 ≡ ok pushed
unfolding stack_push has_duplicate
push_runs = refl

stack_push-IsStack_example : IsStack pushed
stack_push-IsStack_example = stack_push-IsStack empty_stack 7 {t = pushed} empty-IsStack push_runs

stack_push-contents_example : map_run contents (stack_push pushed 7) ≡ (
    if ltb pushed.top stack_cap
    then ok (if contains (contents pushed) 7 then contents pushed else contents pushed ++ 7 ∷ [])
    else fault assertion)
stack_push-contents_example = stack_push-contents pushed 7

stack_pop-contents_example :
    let (popped, y, t) = stack_pop pushed 3 in
    ((contents pushed ≡ []) × (popped ≡ false) × (y ≡ 3) × (t ≡ pushed))
    ⊎ ((contents pushed ≡ contents t ++ y ∷ []) × (popped ≡ true))
stack_pop-contents_example = stack_pop-contents pushed 3

abbrev empty_set : Set
empty_set = record { table = λ i. 0 }

set_code : Unit {0}
unfolding set_has has_loop add_loop store_free set_add
set_code = tt

abbrev one_member : Set
one_member = record { table = update (λ i. 0) 5 5 }

-- 5 and 5 + 32768 share a home slot.
abbrev two_members : Set
two_members = record { table = update (update (λ i. 0) 5 5) 6 32773 }

add_first : set_add empty_set 5 ≡ ok (true, one_member)
unfolding set_code
add_first = refl

add_again : set_add one_member 5 ≡ ok (false, one_member)
unfolding set_code
add_again = refl

add_second : set_add one_member 32773 ≡ ok (true, two_members)
unfolding set_code
add_second = refl

-- The first element of an empty set
set_add-Found_example : Found one_member 5
set_add-Found_example = set_add-Found empty_set 5 5 {b = true} {t = one_member} (inl refl) add_first

empty-IsProbed : IsProbed empty_set
empty-IsProbed = unfold set_reset in set_reset-IsProbed empty_set

one-IsProbed : IsProbed one_member
one-IsProbed = set_add-IsProbed empty_set 5 {b = true} {t = one_member} empty-IsProbed add_first

set_add-IsProbed_example : IsProbed one_member
set_add-IsProbed_example =
    set_add-IsProbed empty_set 5 {b = true} {t = one_member} empty-IsProbed add_first

set_add_iff_example : (true ≡ false) ↔ IsMember one_member 32773
set_add_iff_example =
    set_add_iff one_member 32773 {b = true} {t = two_members} one-IsProbed add_second

collides : ◌≢◌ {A = ℕ} 32773 0
collides = omega arith

-- `set_has` does not end at the second of two members with one home slot.
set_has_lem_example :
    set_has 100 two_members 32773
    ≡ ok (
        if two_members.table 5 == 0
        then some false
        else if two_members.table 5 == 32773
        then some true
        else none)
set_has_lem_example = set_has_lem two_members 32773 99 collides

abbrev address : ℕ
address = 0x10000

address_ne : address ≢ 0
address_ne = omega arith

cache_code : Unit {0}
unfolding new_cache lookup_loop code_at found_code cache_lookup probe align_to copy_bytes cache_add
    bump count_at cache_hot
cache_code = tt

first_probe : probe max_search_count new_cache address (hash address) ≡ ok (false, 0)
unfolding cache_code
first_probe = refl

-- Call 50001 is the first that answers true, where the threshold of the source is 100000.
hot_run_lem_example :
    (d : Cache) × (hot_run 50001 new_cache address ≡ ok (true, d))
    × Counts d address (min (2 * 50000 + 1) cache_hot_count)
hot_run_lem_example = hot_run_lem 50000 new_cache address 0 address_ne first_probe

abbrev hot_item : CacheItem
hot_item = record { pc = address; hot = cache_hot_count; offset = 0 }

abbrev hot_cache : Cache
hot_cache = record {
  jitcode = λ i. 0;
  offset = 3;
  table = update (λ i. record { pc = 0; hot = 0; offset = 0 }) 0 hot_item;
}

hot-Counts : Counts hot_cache address cache_hot_count
hot-Counts = (0, unfold cache_code in refl, refl)

abbrev other_cache : Cache
other_cache = record {
  jitcode = λ i. 0;
  offset = 3;
  table =
      update (update (λ i. record { pc = 0; hot = 0; offset = 0 }) 0 hot_item) 1
        (record { pc = 0x20000; hot = 1; offset = 0 });
}

other_runs : cache_hot hot_cache 0x20000 ≡ ok (false, other_cache)
unfolding cache_code
other_runs = refl

address_other : address ≢ 0x20000
address_other = omega arith

cache_hot_other_example : Counts other_cache address cache_hot_count
cache_hot_other_example =
    cache_hot_other hot_cache 0x20000 address cache_hot_count {b = false} {d = other_cache}
      address_other hot-Counts other_runs

abbrev code : List ℕ
code = 0xc3 ∷ 0x90 ∷ []

abbrev filled_cache : Cache
filled_cache = record {
  jitcode = copy_bytes (λ i. 0) 16 code;
  offset = 18;
  table =
      update (update (λ i. record { pc = 0; hot = 0; offset = 0 }) 0 hot_item) 0
        (record { pc = address; hot = cache_hot_count; offset = 16 });
}

add_runs : cache_add hot_cache address code 16 ≡ ok (16, filled_cache)
unfolding cache_code
add_runs = refl

enough : cache_hot_count ≤ cache_hot_count
enough = omega arith

fuel_enough : max_search_count < 33
fuel_enough = omega arith

cache_lookup-cache_add_example :
    (cache_lookup 33 filled_cache address ≡ ok (some (some 16)))
    × Stored hot_cache address code 16 filled_cache
cache_lookup-cache_add_example =
    cache_lookup-cache_add hot_cache address cache_hot_count code 16 33 {p = 16} {d = filled_cache}
      hot-Counts enough fuel_enough add_runs
