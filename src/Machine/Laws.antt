-- ===== src/Machine/Laws.antt =====
-- What `machine_step` returns, and what it keeps.
use mathlib.Core.Path.{subst}
use riscvemu_study.Prelude.{
  ℕ, zero, suc, ◌≡◌, ◌⊎◌, inl, inr, refl, sym, arith, ◌==◌, Bool, Bool-cases, true, false, Option,
  none, some, ok, fault,
}
use riscvemu_study.State.{ExitReason, World}
use riscvemu_study.Cache.{Cache, cache_lookup, cache_hot}
use riscvemu_study.Codegen.Block.{machine_genblock}
use riscvemu_study.Compile.{machine_compile}
use riscvemu_study.Machine.{
  Partial, ◌>>=◌, lift, flatten, Machine, Code, interpreter, compiled, with_reason, reenter, Host,
  call, generate, warm, choose_code, pick_code, after_branch, after_block, run_blocks, after_blocks,
  machine_step,
}

-- A chain of two steps that gives a result.
pub record Chain {ℓ κ} {A : Type ℓ} {B : Type κ} (m : Partial A) (f : A → Partial B) (b : B)
    : Type (ℓ ⊔ κ) where
  pub between : A
  pub first : m ≡ some (ok between)
  pub second : f between ≡ some (ok b)

pub chained {ℓ κ} :
    {A : Type ℓ} {B : Type κ} {f : A → Partial B} {b : B} (m : Partial A)
    → (m >>= f) ≡ some (ok b)
    → Chain m f b
chained none run = absurd (cc)
chained (some (fault e)) run = absurd (cc)
chained (some (ok a)) run = record { between = a; first = refl; second = run }

-- The code of a block keeps a property of the world, whether it is interpreted or compiled, and so
-- do the writes of `machine_step` itself.
pub record IsKept (h : Host) (P : World → Type 0) : Type 0 where
  pub code :
      (fuel : ℕ) (code : Code) (c : Cache) (w w' : World)
      → P w
      → call h fuel code c w ≡ some (ok w')
      → P w'
  pub reason : (w : World) (r : ExitReason) → P w → P (with_reason w r)
  pub again : (w : World) → P w → P (reenter w)

-- What `machine_step` returns with.
pub data IsStopped (r : ExitReason) (m : Machine) : Type 0 where
  called :
      r ≡ ExitReason.ecall
      → m.world.state.exit_reason ≡ ExitReason.ecall
      → m.world.state.pc ≡ m.world.state.reenter_pc
      → IsStopped r m
  halted :
      r ≡ ExitReason.halt
      → (m.world.state.pc ≡ 0) ⊎ (m.world.state.exit_reason ≡ ExitReason.halt)
      → IsStopped r m

module _ (h : Host) where
  -- The choice of the code changes no register and no memory.
  generate-world :
      (fuel : ℕ) (m : Machine) {code : Code} {m' : Machine}
      → generate h fuel m ≡ some (ok (code, m'))
      → m'.world ≡ m.world
  unfolding generate
  generate-world fuel m e =
      let source = chained (machine_genblock fuel m.gen m.world) e in
      let binary =
        chained (lift (machine_compile m.world.state.pc m.cache (h.clang source.between.0)))
          source.second in
      ground (arith, binary.second)

  pick_code-world :
      (fuel : ℕ) (m : Machine) {code : Code} {m' : Machine}
      → pick_code h fuel m ≡ some (ok (code, m'))
      → m'.world ≡ m.world
  unfolding pick_code choose_code warm
  pick_code-world fuel m {code} {m'} e =
      let look = chained (flatten (cache_lookup fuel m.cache m.world.state.pc)) e in
      go look.between look.second
    where
      warmed :
          (b : Bool) (cache : Cache)
          → warm h fuel (record m { cache = cache }) b ≡ some (ok (code, m'))
          → m'.world ≡ m.world
      warmed true cache r = generate-world fuel (record m { cache = cache }) r
      warmed false cache r = ground arith

      go :
          (found : Option ℕ)
          → choose_code h fuel m found ≡ some (ok (code, m'))
          → m'.world ≡ m.world
      go (some p) r = ground arith
      go none r =
          let hot = chained (lift (cache_hot m.cache m.world.state.pc)) r in
          warmed hot.between.0 hot.between.1 hot.second

  module _ (P : World → Type 0) (k : IsKept h P) where
    after_block_kept :
        (fuel : ℕ) (c : Cache) (again : Code → World → Partial World) (w w' : World)
        → ((code : Code) (v : World) → P v → again code v ≡ some (ok w') → P w')
        → P w
        → after_block h fuel c again w ≡ some (ok w')
        → P w'
    unfolding after_block after_branch
    after_block_kept fuel c again w w' rest p e = go w.state.exit_reason refl
      where
        branched :
            ((flatten (cache_lookup fuel c w.state.reenter_pc) >>= λ found.
            after_branch h again found (reenter w))
              ≡ some (ok w'))
            → P w'
        branched b =
            let look = chained (flatten (cache_lookup fuel c w.state.reenter_pc)) b in
            found look.between look.second
          where
            found : (o : Option ℕ) → after_branch h again o (reenter w) ≡ some (ok w') → P w'
            found (some q) r = rest (compiled q) (reenter w) (k.again w p) r
            found none r = subst P (ground arith) (k.again w p)

        go : (r : ExitReason) → w.state.exit_reason ≡ r → P w'
        go ExitReason.none q = absurd (ground arith)
        go ExitReason.direct_branch q = branched (ground arith)
        go ExitReason.indirect_branch q = branched (ground arith)
        go ExitReason.interp q = rest interpreter (reenter w) (k.again w p) (ground arith)
        go ExitReason.ecall q = subst P (ground arith) p
        go ExitReason.halt q = subst P (ground arith) p

    run_blocks_kept :
        (fuel : ℕ) (c : Cache) (code : Code) (w : World) {w' : World}
        → P w
        → run_blocks h fuel c code w ≡ some (ok w')
        → P w'
    unfolding run_blocks
    run_blocks_kept zero c code w p e = absurd (cc)
    run_blocks_kept (suc fuel) c code w {w'} p e =
        let ran = chained (call h fuel code c (with_reason w ExitReason.none)) e in
        after_block_kept fuel c (run_blocks h fuel c) ran.between w'
          (λ next v q. run_blocks_kept fuel c next v q)
          (k.code fuel code c _ ran.between (k.reason w ExitReason.none p) ran.first) ran.second

    after_blocks_kept :
        (again : Machine → Partial (ExitReason × Machine)) (m : Machine) {r : ExitReason}
        {m' : Machine}
        → (again m ≡ some (ok (r, m')) → P m'.world × IsStopped r m')
        → P m.world
        → m.world.state.pc ≡ m.world.state.reenter_pc
        → after_blocks h again m ≡ some (ok (r, m'))
        → P m'.world × IsStopped r m'
    unfolding after_blocks
    after_blocks_kept again m {r} {m'} rest p same e = go m.world.state.exit_reason refl
      where
        go : (x : ExitReason) → m.world.state.exit_reason ≡ x → P m'.world × IsStopped r m'
        go ExitReason.none q = absurd (ground arith)
        go ExitReason.direct_branch q = rest (ground arith)
        go ExitReason.indirect_branch q = rest (ground arith)
        go ExitReason.interp q = absurd (ground arith)
        go ExitReason.ecall q =
            let final : m ≡ m' = ground arith in
            (
              subst (λ (n : Machine). P n.world) final p,
              subst (IsStopped r) final (called (ground arith) q same),
            )
        go ExitReason.halt q =
            let final : m ≡ m' = ground arith in
            (
              subst (λ (n : Machine). P n.world) final p,
              subst (IsStopped r) final (halted (ground arith) (inr q)),
            )

    -- Where the code of the blocks keeps a property of the world, a `machine_step` that returns
    -- keeps it. It returns `ecall`, with that exit reason and the program counter at
    -- `reenter_pc`, or `halt`, with that exit reason or the program counter at 0.
    pub machine_step_keeps :
        (fuel : ℕ) (m : Machine) {r : ExitReason} {m' : Machine}
        → P m.world
        → machine_step h fuel m ≡ some (ok (r, m'))
        → P m'.world × IsStopped r m'
    unfolding machine_step
    machine_step_keeps zero m p e = absurd (cc)
    machine_step_keeps (suc fuel) m {r} {m'} p e = elim (Bool-cases (m.world.state.pc == 0)) [
      | inl nought ↦
          let final : m ≡ m' = ground arith in
          (
            subst (λ (n : Machine). P n.world) final p,
            subst (IsStopped r) final (halted (ground arith) (inl (ground arith))),
          )
      | inr running ↦ round (ground arith) (λ n q. machine_step_keeps fuel n q)
    ]
      where
        round :
            ((pick_code h fuel m >>= λ (code, n). run_blocks h fuel n.cache code n.world >>= λ w.
            after_blocks h (machine_step h fuel) (record n { world = reenter w }))
              ≡ some (ok (r, m')))
            → ((n : Machine)
                → P n.world
                → machine_step h fuel n ≡ some (ok (r, m'))
                → P m'.world × IsStopped r m')
            → P m'.world × IsStopped r m'
        round e' rest =
            let picked = chained (pick_code h fuel m) e' in
            let n = picked.between.1 in
            let ran = chained (run_blocks h fuel n.cache picked.between.0 n.world) picked.second in
            let before = subst P (sym (pick_code-world fuel m picked.first)) p in
            let after =
              k.again ran.between
                (run_blocks_kept fuel n.cache picked.between.0 n.world before ran.first) in
            after_blocks_kept (machine_step h fuel) _ (rest _ after) after refl ran.second
