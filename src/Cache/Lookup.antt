-- ===== src/Cache/Lookup.antt =====
-- What `cache_add` stores and `cache_lookup` gives back.
use mathlib.Core.Path.{◌∙◌, subst}
use native.Mathlib.Nat.{
  pow-suc, one-le-pow, add-zero, mod-eq_of_lt, mod-lt, div-add-mod, mul-mod_left,
}
use riscvemu_study.Prelude.{
  ℕ, zero, suc, ◌+◌, ◌-◌, ◌*◌, ◌/◌, ◌%◌, ◌^◌, ◌≤◌, ◌<◌, ◌≡◌, refl, sym, ap, arith, Bool, true,
  update, u64, bit_and, List, [], ◌∷◌, length, some, Run, ok, fault,
}
use riscvemu_study.Prelude.Bits.{bit_and_high}
use riscvemu_study.Cache.{
  Cache, hash, max_search_count, cache_hot_count, cache_size, probe, lookup_loop, code_at,
  found_code, cache_lookup, cache_add, align_to, copy_bytes,
}
use riscvemu_study.Cache.Counter.{Counts, Holds, probe_hit, probe_hit_ne, probe_kept}

mul-two : (a b : ℕ) → a * (2 * b) ≡ 2 * (a * b)
mul-two a b = omega arith

pred_mul : (q p : ℕ) → 1 ≤ q → (q - 1) * p + p ≡ q * p
pred_mul zero p h = absurd (omega arith)
pred_mul (suc q) p h = ground arith

div_lt : (x p q : ℕ) → 0 < p → x < q * p → x / p < q
div_lt x p q h b = grind arith

pow_split : (k j : ℕ) → 2 ^ (j + k) ≡ 2 ^ j * 2 ^ k
pow_split zero j = ground (arith, ap (λ (t : ℕ). 2 ^ t) (add-zero j))
pow_split (suc k) j = ground (
  arith,
  ap (λ (t : ℕ). 2 ^ t) (let e : j + suc k ≡ suc (j + k) = omega arith in e),
  pow-suc 2 (j + k),
  pow-suc 2 k,
  pow_split k j,
  mul-two (2 ^ j) (2 ^ k),
)

-- Rounding up, for an alignment `p` with `q * p` the modulus.
round_up :
    (x p q : ℕ)
    → 0 < p
    → q * p ≡ 2 ^ 64
    → x < 2 ^ 64
    → (x / p % q * p ≤ x) × (x < x / p % q * p + p)
round_up x p q h e b =
    let small : x / p < q = div_lt x p q h (rw e b) in
    rw (mod-eq_of_lt small)
      (omega (arith, div-add-mod x p, mod-lt x h), omega (arith, div-add-mod x p, mod-lt x h))

-- With an alignment that is a power of two, and a sum of the value and the alignment that fits
-- 64 bits, `align_to` rounds up to a multiple of the alignment, by less than the alignment.
align_to_lem :
    (val k j : ℕ)
    → j + k ≡ 64
    → val + 2 ^ k ≤ 2 ^ 64
    → (val ≤ align_to val (2 ^ k))
      × (align_to val (2 ^ k) < val + 2 ^ k)
      × (align_to val (2 ^ k) % 2 ^ k ≡ 0)
unfolding align_to
align_to_lem val k j e h =
    let x = val + 2 ^ k - 1 in
    let pos = one-le-pow k 2 (omega arith) in
    let whole : 2 ^ j * 2 ^ k ≡ 2 ^ 64 = sym (pow_split k j) ∙ ap (λ (t : ℕ). 2 ^ t) e in
    let mask : (2 ^ j - 1) * 2 ^ k ≡ 2 ^ 64 - 2 ^ k =
      omega (arith, whole, pred_mul (2 ^ j) (2 ^ k) (one-le-pow j 2 (omega arith))) in
    let value = ap (bit_and x) (sym mask) ∙ bit_and_high k j x in
    let bounds = round_up x (2 ^ k) (2 ^ j) (omega (arith, pos)) whole (omega (arith, pos)) in
    let small : u64 x ≡ x = mod-eq_of_lt (omega (arith, pos)) in
    let rounded : align_to val (2 ^ k) ≡ x / 2 ^ k % 2 ^ j * 2 ^ k =
      ground (arith, pos, value, small) in
    rw rounded (
      omega (arith, bounds.0, bounds.1, pos),
      omega (arith, bounds.0, bounds.1, pos),
      mul-mod_left (x / 2 ^ k % 2 ^ j) (2 ^ k),
    )

-- The bytes of a copy.
copy_before :
    (bytes : ℕ → ℕ) (at : ℕ) (code : List ℕ) (i : ℕ) → i < at → copy_bytes bytes at code i ≡ bytes i
unfolding copy_bytes
copy_before bytes at [] i h = refl
copy_before bytes at (b ∷ code) i h =
    copy_before (update bytes at b) (at + 1) code i (omega arith) ∙ ground arith

copy_after :
    (bytes : ℕ → ℕ) (at : ℕ) (code : List ℕ) (i : ℕ)
    → at + length code ≤ i
    → copy_bytes bytes at code i ≡ bytes i
unfolding copy_bytes
copy_after bytes at [] i h = refl
copy_after bytes at (b ∷ code) i h =
    copy_after (update bytes at b) (at + 1) code i (omega arith) ∙ ground arith

-- `code` stands in `bytes` from `at` on.
abbrev pub StandsAt : (ℕ → ℕ) → ℕ → List ℕ → Type 0
StandsAt bytes at [] = Unit
StandsAt bytes at (b ∷ code) = (bytes at ≡ b) × StandsAt bytes (at + 1) code

copy_stands : (bytes : ℕ → ℕ) (at : ℕ) (code : List ℕ) → StandsAt (copy_bytes bytes at code) at code
unfolding copy_bytes
copy_stands bytes at [] = tt
copy_stands bytes at (b ∷ code) = (
  copy_before (update bytes at b) (at + 1) code at (omega arith) ∙ ground arith,
  copy_stands (update bytes at b) (at + 1) code,
)

-- `cache_lookup` makes the same probes as `cache_add` and `cache_hot`.
lookup_of_probe :
    (left fuel : ℕ) (c : Cache) (pc i j : ℕ)
    → left < fuel
    → probe left c pc i ≡ ok (true, j)
    → lookup_loop fuel c pc i ≡ some (some j)
unfolding probe lookup_loop
lookup_of_probe left zero c pc i j h e = absurd (omega arith)
lookup_of_probe zero (suc fuel) c pc i j h e = ground arith
lookup_of_probe (suc left) (suc fuel) c pc i j h e =
    ground (arith, lookup_of_probe left fuel c pc (hash (i + 1)) j)

-- What a call of `cache_add` with the code `code` at the offset `p` leaves in the cache.
pub record Stored (c : Cache) (pc : ℕ) (code : List ℕ) (p : ℕ) (d : Cache) : Type 0 where
  pub stands : StandsAt d.jitcode p code
  pub within : p + length code ≤ cache_size
  pub next : d.offset ≡ p + length code
  pub earlier : (i : ℕ) → i < p → d.jitcode i ≡ c.jitcode i

-- The cache after a call that writes slot `j`.
abbrev added : Cache → ℕ → List ℕ → ℕ → ℕ → Cache
added c pc code p j = record {
  jitcode = copy_bytes c.jitcode p code;
  offset = p + length code;
  table = update c.table j (record (c.table j) { pc = pc; offset = p });
}

record Added (c : Cache) (pc : ℕ) (code : List ℕ) (p : ℕ) (d : Cache) : Type 0 where
  known : Bool
  slot : ℕ
  probed : probe max_search_count c pc (hash pc) ≡ ok (known, slot)
  result : added c pc code p slot ≡ d
  room : p + length code ≤ cache_size

cache_add-Added :
    (c : Cache) (pc : ℕ) (code : List ℕ) (align : ℕ) {p : ℕ} {d : Cache}
    → cache_add c pc code align ≡ ok (p, d)
    → Added c pc code p d
unfolding cache_add
cache_add-Added c pc code align {p} {d} e = go (probe max_search_count c pc (hash pc)) refl
  where
    go : (r : Run (Bool × ℕ)) → probe max_search_count c pc (hash pc) ≡ r → Added c pc code p d
    go (fault x) s = absurd (ground arith)
    go (ok (b, j)) s = record {
      known = b;
      slot = j;
      probed = s;
      result = ground arith;
      room = ground arith;
    }

pub cache_add-Stored :
    (c : Cache) (pc : ℕ) (code : List ℕ) (align : ℕ) {p : ℕ} {d : Cache}
    → cache_add c pc code align ≡ ok (p, d)
    → Stored c pc code p d
cache_add-Stored c pc code align {p} {d} e =
    let a = cache_add-Added c pc code align e in
    subst (λ v. Stored c pc code p v) a.result
      (record {
        stands = copy_stands c.jitcode p code;
        within = a.room;
        next = refl;
        earlier = λ i h. copy_before c.jitcode p code i h;
      })

-- The slot of an address that is in the table is the one that is written.
lookup_added :
    (c : Cache) (pc hot i p fuel : ℕ) (code : List ℕ)
    → Holds c pc i
    → (c.table i).hot ≡ hot
    → cache_hot_count ≤ hot
    → max_search_count < fuel
    → cache_lookup fuel (added c pc code p i) pc ≡ ok (some (some p))
unfolding cache_lookup found_code code_at
lookup_added c pc hot i p fuel code e q h f =
    let hit = probe_hit max_search_count c pc (hash pc) i e in
    let ne = probe_hit_ne max_search_count c pc (hash pc) i e in
    let kept =
      probe_kept max_search_count c pc (hash pc) i (record (c.table i) { pc = pc; offset = p })
        (copy_bytes c.jitcode p code) (p + length code) (sym hit) in
    let found =
      lookup_of_probe max_search_count fuel (added c pc code p i) pc (hash pc) i f (kept ∙ e) in
    ground (arith, hit, ne, found)

-- For an address whose counter has reached the threshold, a `cache_add` that returns the offset
-- `p` is answered by `p` at the next `cache_lookup`, on any fuel above 32. The code stands at `p`
-- within the mapping, and no byte below `p` has changed.
pub cache_lookup-cache_add :
    (c : Cache) (pc hot : ℕ) (code : List ℕ) (align fuel : ℕ) {p : ℕ} {d : Cache}
    → Counts c pc hot
    → cache_hot_count ≤ hot
    → max_search_count < fuel
    → cache_add c pc code align ≡ ok (p, d)
    → (cache_lookup fuel d pc ≡ ok (some (some p))) × Stored c pc code p d
cache_lookup-cache_add c pc hot code align fuel {p} {d} (i, e, q) h f run =
    let a = cache_add-Added c pc code align run in
    let same : i ≡ a.slot = ground (arith, a.probed) in
    (
      subst (λ v. cache_lookup fuel v pc ≡ ok (some (some p))) a.result
          (subst (λ j. cache_lookup fuel (added c pc code p j) pc ≡ ok (some (some p))) same
            (lookup_added c pc hot i p fuel code e q h f)),
      cache_add-Stored c pc code align run,
    )
