-- ===== src/Cache/Counter.antt =====
-- What `cache_hot` counts, and when it calls an address hot.
use riscvemu_study.Prelude.{
  ℕ, zero, suc, ◌+◌, ◌*◌, ◌≡◌, ◌≢◌, refl, arith, leb, Bool, true, false, update, Run, ok, fault,
  ◌>>=◌,
}
use Prim.Native.Nat.{min}
use mathlib.Core.Path.{◌∙◌, subst}
use riscvemu_study.Cache.{
  Cache, CacheItem, hash, max_search_count, cache_hot_count, probe, bump, cache_hot,
}

-- The slot of an address.
abbrev pub Holds : Cache → ℕ → ℕ → Type 0
Holds c pc i = probe max_search_count c pc (hash pc) ≡ ok (true, i)

-- The address has a slot, and its counter there is `h`.
abbrev pub Counts : Cache → ℕ → ℕ → Type 0
Counts c pc h = (i : ℕ) × Holds c pc i × ((c.table i).hot ≡ h)

pub probe_free :
    (left : ℕ) (c : Cache) (pc i j : ℕ) → probe left c pc i ≡ ok (false, j) → (c.table j).pc ≡ 0
unfolding probe
probe_free zero c pc i j e = ground arith
probe_free (suc left) c pc i j e = ground (arith, probe_free left c pc (hash (i + 1)) j)

pub probe_hit :
    (left : ℕ) (c : Cache) (pc i j : ℕ) → probe left c pc i ≡ ok (true, j) → (c.table j).pc ≡ pc
unfolding probe
probe_hit zero c pc i j e = ground arith
probe_hit (suc left) c pc i j e = ground (arith, probe_hit left c pc (hash (i + 1)) j)

pub probe_hit_ne :
    (left : ℕ) (c : Cache) (pc i j : ℕ) → probe left c pc i ≡ ok (true, j) → (c.table j).pc ≢ 0
unfolding probe
probe_hit_ne zero c pc i j e = ground arith
probe_hit_ne (suc left) c pc i j e = ground (arith, probe_hit_ne left c pc (hash (i + 1)) j)

-- A write that keeps the address of its slot moves no probe.
pub probe_kept :
    (left : ℕ) (c : Cache) (pc i j : ℕ) (item : CacheItem) (bytes : ℕ → ℕ) (n : ℕ)
    → item.pc ≡ (c.table j).pc
    → probe left (record { jitcode = bytes; offset = n; table = update c.table j item }) pc i
      ≡ probe left c pc i
unfolding probe
probe_kept zero c pc i j item bytes n e = ground arith
probe_kept (suc left) c pc i j item bytes n e =
    ground (arith, probe_kept left c pc (hash (i + 1)) j item bytes n e)

-- A claimed slot was free, so it stands on the way to no other address.
pub probe_claimed :
    (left : ℕ) (c : Cache) (pc i j k : ℕ) (item : CacheItem) (bytes : ℕ → ℕ) (n : ℕ)
    → (c.table j).pc ≡ 0
    → probe left c pc i ≡ ok (true, k)
    → probe left (record { jitcode = bytes; offset = n; table = update c.table j item }) pc i
      ≡ ok (true, k)
unfolding probe
probe_claimed zero c pc i j k item bytes n h e = ground arith
probe_claimed (suc left) c pc i j k item bytes n h e =
    ground (arith, probe_claimed left c pc (hash (i + 1)) j k item bytes n h)

-- The claimed slot is that of its address from now on.
pub probe_self :
    (left : ℕ) (c : Cache) (pc i j : ℕ) (item : CacheItem) (bytes : ℕ → ℕ) (n : ℕ)
    → pc ≢ 0
    → item.pc ≡ pc
    → probe left c pc i ≡ ok (false, j)
    → probe left (record { jitcode = bytes; offset = n; table = update c.table j item }) pc i
      ≡ ok (true, j)
unfolding probe
probe_self zero c pc i j item bytes n h p e = ground arith
probe_self (suc left) c pc i j item bytes n h p e = ground (
  arith,
  probe_free left c pc (hash (i + 1)) j,
  probe_self left c pc (hash (i + 1)) j item bytes n h p,
)

-- The first call claims a slot and starts the counter at 1.
cache_hot_first :
    (c : Cache) (pc j : ℕ)
    → pc ≢ 0
    → probe max_search_count c pc (hash pc) ≡ ok (false, j)
    → (d : Cache) × (cache_hot c pc ≡ ok (false, d)) × Counts d pc 1
unfolding cache_hot
cache_hot_first c pc j h e =
    let item : CacheItem = record (c.table j) { pc = pc; hot = 1 } in
    (
      record c { table = update c.table j item },
      ground arith,
      (
        j,
        probe_self max_search_count c pc (hash pc) j item c.jitcode c.offset h refl e,
        ground arith,
      ),
    )

-- A later call bumps the counter and answers whether that has reached the threshold.
cache_hot_next :
    (c : Cache) (pc h : ℕ)
    → Counts c pc h
    → (d : Cache) × (cache_hot c pc ≡ ok (leb cache_hot_count (bump h), d)) × Counts d pc (bump h)
unfolding cache_hot
cache_hot_next c pc h (i, e, q) =
    let item : CacheItem = record (c.table i) { hot = bump (c.table i).hot } in
    (
      record c { table = update c.table i item },
      ground arith,
      (
        i,
        probe_kept max_search_count c pc (hash pc) i item c.jitcode c.offset refl ∙ e,
        ground arith,
      ),
    )

-- `n` calls of `cache_hot`, and the answer of the last.
unfoldable pub hot_run : ℕ → Cache → ℕ → Run (Bool × Cache)
hot_run zero c pc = ok (false, c)
hot_run (suc n) c pc = do (_, d) ← hot_run n c pc; cache_hot d pc

bump_run : (n : ℕ) → bump (min (2 * n + 1) cache_hot_count) ≡ min (2 * suc n + 1) cache_hot_count
unfolding bump
bump_run n = ground arith

-- For an address that is not in the table and whose first probe ends at a free slot, the counter
-- after `n + 1` calls of `cache_hot` is the smaller of `2 * n + 1` and 100000, and call `n + 1`
-- answers true exactly when that is 100000: from call 50001 on.
pub hot_run_lem :
    (n : ℕ) (c : Cache) (pc j : ℕ)
    → pc ≢ 0
    → probe max_search_count c pc (hash pc) ≡ ok (false, j)
    → (d : Cache) × (hot_run (suc n) c pc ≡ ok (leb 50000 n, d))
      × Counts d pc (min (2 * n + 1) cache_hot_count)
unfolding hot_run
hot_run_lem zero c pc j h e = cache_hot_first c pc j h e
hot_run_lem (suc n) c pc j h e =
    let (c₁, run, counts) = hot_run_lem n c pc j h e in
    let (d, last, counts') = cache_hot_next c₁ pc (min (2 * n + 1) cache_hot_count) counts in
    (d, rw (run, last) (ground (arith, bump_run n)), subst (Counts d pc) (bump_run n) counts')

-- A call of `cache_hot` that returns leaves the counter of any other address in the table alone.
pub cache_hot_other :
    (c : Cache) (pc other h : ℕ) {b : Bool} {d : Cache}
    → other ≢ pc
    → Counts c other h
    → cache_hot c pc ≡ ok (b, d)
    → Counts d other h
cache_hot_other c pc other h {b} {d} ne (i, e, q) run =
    go (probe max_search_count c pc (hash pc)) refl
  where
    go : (r : Run (Bool × ℕ)) → probe max_search_count c pc (hash pc) ≡ r → Counts d other h
    go (fault x) s = absurd (unfold cache_hot in ground arith)
    go (ok (true, k)) s =
        let item : CacheItem = record (c.table k) { hot = bump (c.table k).hot } in
        let same : record c { table = update c.table k item } ≡ d =
          unfold cache_hot in ground arith in
        subst (λ v. Counts v other h) same
          (
            i,
            probe_kept max_search_count c other (hash other) k item c.jitcode c.offset refl ∙ e,
            ground (
              arith,
              probe_hit max_search_count c other (hash other) i,
              probe_hit max_search_count c pc (hash pc) k,
            ),
          )
    go (ok (false, k)) s =
        let item : CacheItem = record (c.table k) { pc = pc; hot = 1 } in
        let same : record c { table = update c.table k item } ≡ d =
          unfold cache_hot in ground arith in
        subst (λ v. Counts v other h) same
          (
            i,
            probe_claimed max_search_count c other (hash other) k i item c.jitcode c.offset
                (probe_free max_search_count c pc (hash pc) k s) e,
            ground (
              arith,
              probe_hit_ne max_search_count c other (hash other) i e,
              probe_free max_search_count c pc (hash pc) k,
            ),
          )
