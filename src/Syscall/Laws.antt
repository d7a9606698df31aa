-- ===== src/Syscall/Laws.antt =====
-- What a system call leaves alone, and the numbers that are not there.
use mathlib.Core.Bool.{not}
use riscvemu_study.Prelude.{
  ℕ, ◌+◌, ◌-◌, ◌^◌, ◌≡◌, ◌<◌, ◌⊎◌, inl, inr, refl, ap, sym, ◌∙◌, arith, ◌==◌, ltb, Bool,
  if◌then◌else◌, Bool-cases, true, false, u64, u32, List, [], ◌∷◌, Run, ok, fault, fatal, ◌>>=◌,
  chained, Ensures, Ensures-ok, Ensures-fault, Ensures-if,
}
use riscvemu_study.State.{Memory}
use riscvemu_study.Stack.View.{contains}
use riscvemu_study.Syscall.Tables.{
  Function, null, unimplemented, exit_call, read_call, write_call, openat_call, close_call,
  fstat_call, lseek_call, brk_call, gettimeofday_call, open_call, Table, array_size, element,
  read_table, syscall_table, old_syscall_table,
}
use riscvemu_study.Mmu.{Mmu, sys_brk}
use riscvemu_study.Machine.{Machine}
use riscvemu_study.Syscall.{
  Os, Outcome, with_memory, returned, exited, arg, host_call, sys_close, sys_write, sys_read,
  sys_lseek, sys_fstat, sys_gettimeofday, sys_openat, sys_open, sys_break, select, apply,
  do_syscall,
}

-- The numbers with a function of their own
abbrev pub known_calls : List ℕ
known_calls = 56 ∷ 57 ∷ 62 ∷ 63 ∷ 64 ∷ 80 ∷ 93 ∷ 94 ∷ 169 ∷ 214 ∷ 1024 ∷ []

-- The functions that stand for no call
abbrev is_absent : Function → Bool
is_absent null = true
is_absent unimplemented = true
is_absent f = false

abbrev is_brk : Function → Bool
is_brk brk_call = true
is_brk f = false

-- The numbers in a table whose functions a test holds of
numbers_of : (Function → Bool) → Table → List ℕ
numbers_of test [] = []
numbers_of test ((i, f) ∷ rest) = if test f then i ∷ numbers_of test rest else numbers_of test rest

element-numbers_of :
    (test : Function → Bool) (t : Table) (n : ℕ)
    → test null ≡ false
    → contains (numbers_of test t) n ≡ false
    → test (element t n) ≡ false
unfolding numbers_of element contains
element-numbers_of test [] n h e = h
element-numbers_of test ((i, f) ∷ rest) n h e = ground (arith, element-numbers_of test rest n h)

select_none :
    (test : Function → Bool) (n : ℕ) {f : Function}
    → test null ≡ false
    → contains (numbers_of test syscall_table) n ≡ false
    → contains (numbers_of test old_syscall_table) (u64 (n + (2 ^ 64 - 1024))) ≡ false
    → select n ≡ ok f
    → test f ≡ false
unfolding select read_table
select_none test n h a b e = ground (
  arith,
  element-numbers_of test syscall_table n h a,
  element-numbers_of test old_syscall_table (u64 (n + (2 ^ 64 - 1024))) h b,
)

-- No element behind the end of an array is read.
chosen : ℕ → Function
chosen n =
    let old = u64 (n + (2 ^ 64 - 1024)) in
    if ltb n (array_size syscall_table)
    then element syscall_table n
    else if ltb old (array_size old_syscall_table)
    then element old_syscall_table old
    else null

select_returns : (n : ℕ) → (f : Function) × (select n ≡ ok f)
unfolding select read_table chosen
select_returns n = (chosen n, ground arith)

is_called : Function → Bool
is_called f = not (is_absent f)

unknown_new :
    (n : ℕ)
    → contains known_calls n ≡ false
    → contains (numbers_of is_called syscall_table) n ≡ false
unfolding numbers_of is_called syscall_table contains
unknown_new n k = ground arith

unknown_old :
    (n : ℕ)
    → n < 2 ^ 64
    → contains known_calls n ≡ false
    → contains (numbers_of is_called old_syscall_table) (u64 (n + (2 ^ 64 - 1024))) ≡ false
unfolding numbers_of is_called old_syscall_table contains
unknown_old n h k = ground arith

select-brk : (n : ℕ) → select n ≡ ok brk_call → n ≡ 214
unfolding numbers_of syscall_table old_syscall_table contains
select-brk n e = elim (Bool-cases (n == 214)) [
  | inl same ↦ ground arith
  | inr other ↦
      absurd (ground (arith, select_none is_brk n {f = brk_call} refl (ground arith) refl e))
]

absent_fatal :
    (os : Os) (f : Function) (fs : os.Files) (m : Machine)
    → is_called f ≡ false
    → apply os f fs m ≡ fault fatal
unfolding apply is_called
absent_fatal os null fs m h = refl
absent_fatal os unimplemented fs m h = refl
absent_fatal os _ fs m h = absurd (ground arith)

module _ (os : Os) where
  -- A 64-bit number other than those of `openat`, `close`, `lseek`, `read`, `write`, `fstat`,
  -- `exit`, `exit_group`, `gettimeofday`, `brk` and the old `open` is fatal.
  pub do_syscall_unknown :
      (n : ℕ) (fs : os.Files) (m : Machine)
      → n < 2 ^ 64
      → contains known_calls n ≡ false
      → do_syscall os n fs m ≡ fault fatal
  unfolding do_syscall is_called
  do_syscall_unknown n fs m h k =
      let (f, read) = select_returns n in
      let none_there = select_none is_called n refl (unknown_new n k) (unknown_old n h k) read in
      rw read (absent_fatal os f fs m none_there)

  -- The machine after a call: only memory has changed, and the heap too after number 214.
  pub record IsKept (n : ℕ) (m m' : Machine) : Type 0 where
    pub state : m'.world.state ≡ m.world.state
    pub cache : m'.cache ≡ m.cache
    pub gen : m'.gen ≡ m.gen
    pub mmu : (n ≡ 214) ⊎ (m'.mmu ≡ m.mmu)

  memory_changed :
      (n : ℕ) (m : Machine) (mem : Memory) {m' : Machine}
      → with_memory os m mem ≡ m'
      → IsKept n m m'
  memory_changed n m mem e = record {
    state = ap (λ (k : Machine). k.world.state) (sym e);
    cache = ap (λ (k : Machine). k.cache) (sym e);
    gen = ap (λ (k : Machine). k.gen) (sym e);
    mmu = inr (ap (λ (k : Machine). k.mmu) (sym e));
  }

  unchanged : (n : ℕ) (m : Machine) → IsKept n m m
  unchanged n m = memory_changed n m m.world.memory refl

  -- What holds of the machine that a call returns.
  abbrev Keeps : ℕ → Machine → Outcome os → Type 0
  Keeps n m (returned v fs m') = IsKept n m m'
  Keeps n m (exited code) = Unit

  module _ (n : ℕ) (fs : os.Files) (m : Machine) where
    host_call-Ensures : (r : Run (ℕ × os.Files × Memory)) → Ensures (Keeps n m) (host_call os m r)
    unfolding host_call
    host_call-Ensures (fault e) = Ensures-fault
    host_call-Ensures (ok (v, fs', mem)) = Ensures-ok (memory_changed n m mem refl)

    sys_close-Ensures : Ensures (Keeps n m) (sys_close os fs m)
    unfolding sys_close
    sys_close-Ensures =
        Ensures-if (ltb 2 (arg os m 0)) (Ensures-ok (unchanged n m)) (Ensures-ok (unchanged n m))

    sys_fstat-Ensures : Ensures (Keeps n m) (sys_fstat os fs m)
    unfolding sys_fstat
    sys_fstat-Ensures =
        Ensures-if ((os.fstat (u32 (arg os m 0)) fs).0 == 0) (host_call-Ensures _)
          (Ensures-ok (unchanged n m))

    sys_break-Ensures : n ≡ 214 → Ensures (Keeps n m) (sys_break os fs m)
    unfolding sys_break
    sys_break-Ensures e = go (sys_brk os.kernel m.mmu m.world.memory (arg os m 0))
      where
        go :
            (r : Run (ℕ × Mmu × Memory))
            → Ensures (Keeps n m) (
                r >>= λ (v, mmu, mem).
                ok (returned v fs (record (with_memory os m mem) { mmu = mmu })))
        go (fault f) = Ensures-fault
        go (ok (v, mmu, mem)) =
            Ensures-ok (record { state = refl; cache = refl; gen = refl; mmu = inl e })

    apply-Ensures :
        (f : Function) → (f ≡ brk_call → n ≡ 214) → Ensures (Keeps n m) (apply os f fs m)
    unfolding apply sys_read sys_write sys_openat sys_lseek sys_gettimeofday sys_open
    apply-Ensures null h = Ensures-fault
    apply-Ensures unimplemented h = Ensures-fault
    apply-Ensures exit_call h = Ensures-ok tt
    apply-Ensures read_call h = host_call-Ensures _
    apply-Ensures write_call h = host_call-Ensures _
    apply-Ensures openat_call h = host_call-Ensures _
    apply-Ensures close_call h = sys_close-Ensures
    apply-Ensures fstat_call h = sys_fstat-Ensures
    apply-Ensures lseek_call h = Ensures-ok (unchanged n m)
    apply-Ensures brk_call h = sys_break-Ensures (h refl)
    apply-Ensures gettimeofday_call h = host_call-Ensures _
    apply-Ensures open_call h = host_call-Ensures _

    -- A system call that returns to the guest changes no register and no counter, neither the
    -- cache nor the generator's variables, and, unless it is `brk`, not the heap.
    pub do_syscall-IsKept :
        {v : ℕ} {fs' : os.Files} {m' : Machine}
        → do_syscall os n fs m ≡ ok (returned v fs' m')
        → IsKept n m m'
    unfolding do_syscall
    do_syscall-IsKept {v} {fs'} {m'} e =
        let read = chained (select n) e in
        (apply-Ensures read.between (λ b. select-brk n (read.first ∙ ap ok b))).holds
          (returned v fs' m') read.second
