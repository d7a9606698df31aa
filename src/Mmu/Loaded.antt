-- ===== src/Mmu/Loaded.antt =====
-- What the loader leaves of the heap.
use riscvemu_study.Prelude.{
  ℕ, zero, suc, ◌+◌, ◌-◌, ◌*◌, ◌/◌, ◌%◌, ◌^◌, ◌≤◌, ◌<◌, ◌≡◌, refl, arith, if◌then◌else◌, u64, ◌∙◌,
  ok, Run, chained, Bool-cases, inl, inr, sym, ◌==◌,
}
use mathlib.Core.Path.{subst}
use riscvemu_study.Prelude.Bits.{bit_and_high}
use riscvemu_study.State.{Memory, guest_memory_offset, to_host}
use riscvemu_study.Mmu.{Mmu, to_guest, round_up}
use riscvemu_study.Mmu.Break.{IsMmu, round_up_lem, to_guest_lem}
use riscvemu_study.Mmu.Elf.{Ehdr, Phdr, pt_load}
use riscvemu_study.Mmu.Load.{
  File, load_phdr, round_down, max, mmu_load_segment, load_segments, load_ehdr, mmu_load_elf,
}

round_down_lem :
    (x : ℕ)
    → x < 2 ^ 64
    → (round_down x 4096 ≤ x) × (x < round_down x 4096 + 4096) × (round_down x 4096 % 4096 ≡ 0)
unfolding round_down
round_down_lem x h =
    let masked : round_down x 4096 ≡ x / 2 ^ 12 % 2 ^ 52 * 2 ^ 12 = bit_and_high 12 52 x in
    omega (arith, masked)

-- A segment of the file that ends below 2^46
abbrev pub IsSmall : Phdr → Type 0
IsSmall p = p.p_vaddr + p.p_memsz < 2 ^ 46

-- The end of the host's mapping
pub record IsHost (m : Mmu) : Type 0 where
  pub aligned : m.host_alloc % 4096 ≡ 0
  pub bound : m.host_alloc < 2 ^ 48

-- What loading keeps, and that the heap begins at the end of the mapping
pub record IsPlaced (m m' : Mmu) : Type 0 where
  pub host : IsHost m'
  pub grows : m.host_alloc ≤ m'.host_alloc
  pub entry : m'.entry ≡ m.entry

-- The heap is empty, behind the pages of a segment.
pub record IsBehind (p : Phdr) (m : Mmu) : Type 0 where
  pub above : p.p_vaddr + p.p_memsz + guest_memory_offset ≤ m.host_alloc
  pub base : m.base ≡ to_guest m.host_alloc
  pub alloc : m.alloc ≡ to_guest m.host_alloc

segment_end :
    (p : Phdr)
    → IsSmall p
    → (p.p_vaddr + p.p_memsz + guest_memory_offset
        ≤ u64 (
            round_down (to_host p.p_vaddr) 4096
            + round_up
                (u64 (p.p_memsz + (to_host p.p_vaddr - round_down (to_host p.p_vaddr) 4096)))
                4096))
      × (u64 (
              round_down (to_host p.p_vaddr) 4096
              + round_up
                  (u64 (p.p_memsz + (to_host p.p_vaddr - round_down (to_host p.p_vaddr) 4096)))
                  4096)
            % 4096
          ≡ 0)
      × (u64 (
            round_down (to_host p.p_vaddr) 4096
            + round_up
                (u64 (p.p_memsz + (to_host p.p_vaddr - round_down (to_host p.p_vaddr) 4096)))
                4096)
          < 2 ^ 48)
unfolding to_host
segment_end p h =
    let down = round_down_lem (u64 (p.p_vaddr + guest_memory_offset)) (omega arith) in
    let up =
      round_up_lem
        (u64 (
          p.p_memsz
          + (u64 (p.p_vaddr + guest_memory_offset)
              - round_down (u64 (p.p_vaddr + guest_memory_offset)) 4096)))
        (omega (arith, down)) in
    omega (arith, down, up)

segment-IsBehind :
    (file : File) (p : Phdr) (m : Mmu) (mem : Memory) {m' : Mmu} {mem' : Memory}
    → file.pagesize ≡ 4096
    → IsSmall p
    → IsHost m
    → mmu_load_segment file p m mem ≡ ok (m', mem')
    → IsPlaced m m' × IsBehind p m'
unfolding mmu_load_segment max
segment-IsBehind file p m mem page small h e =
    let ends = segment_end p small in ground (arith, ends)

IsPlaced-refl : (m : Mmu) → IsHost m → IsPlaced m m
IsPlaced-refl m h = record { host = h; grows = omega arith; entry = refl }

IsPlaced-trans : {a b c : Mmu} → IsPlaced a b → IsPlaced b c → IsPlaced a c
IsPlaced-trans g h = record {
  host = h.host;
  grows = omega (arith, g.grows, h.grows);
  entry = h.entry ∙ g.entry;
}

-- A program header that is read
abbrev round : File → Phdr → Mmu → Memory → Run (Mmu × Memory)
round file p m mem = if p.p_type == pt_load then mmu_load_segment file p m mem else ok (m, mem)

round-IsPlaced :
    (file : File) (p : Phdr) (m : Mmu) (mem : Memory) {m' : Mmu} {mem' : Memory}
    → file.pagesize ≡ 4096
    → (p.p_type ≡ pt_load → IsSmall p)
    → IsHost m
    → round file p m mem ≡ ok (m', mem')
    → IsPlaced m m'
      × (p.p_type ≡ pt_load → IsBehind p m')
      × ((q : Phdr) → IsBehind q m → IsBehind q m')
round-IsPlaced file p m mem {m' = m'} {mem' = mem'} page small h e =
    elim (Bool-cases (p.p_type == pt_load)) [
      | inl load ↦
          let is : p.p_type ≡ pt_load = ground arith in
          let (placed, behind) =
            segment-IsBehind file p m mem {m' = m'} {mem' = mem'} page (small is) h
              (ground arith) in
          (
            placed,
            λ t. behind,
            λ q b. record {
              above = omega (arith, b.above, placed.grows);
              base = behind.base;
              alloc = behind.alloc;
            },
          )
      | inr other ↦
          let same : m ≡ m' = ground arith in
          (
            subst (IsPlaced m) same (IsPlaced-refl m h),
            λ t. absurd (ground arith),
            λ q. subst (λ t. IsBehind q m → IsBehind q t) same (λ b. b),
          )
    ]

loop-IsBehind :
    (file : File) (ehdr : Ehdr) (q : Phdr) (i left : ℕ) (m : Mmu) (mem : Memory) {m' : Mmu}
    {mem' : Memory}
    → file.pagesize ≡ 4096
    → ((x : ℕ) (p : Phdr)
        → x < i + left
        → load_phdr file ehdr x ≡ ok p
        → p.p_type ≡ pt_load
        → IsSmall p)
    → IsHost m
    → load_segments file ehdr i left m mem ≡ ok (m', mem')
    → IsPlaced m m' × (IsBehind q m → IsBehind q m')
unfolding load_segments
loop-IsBehind file ehdr q i zero m mem {m' = m'} page small h e =
    let same : m ≡ m' = ground arith in
    (
      subst (IsPlaced m) same (IsPlaced-refl m h),
      subst (λ t. IsBehind q m → IsBehind q t) same (λ b. b),
    )
loop-IsBehind file ehdr q i (suc left) m mem page small h e =
    let header = chained (load_phdr file ehdr i) e in
    let p = header.between in
    let one = chained (round file p m mem) header.second in
    let here =
      round-IsPlaced file p m mem page (small i p (omega arith) header.first) h one.first in
    let rest =
      loop-IsBehind file ehdr q (suc i) left one.between.0 one.between.1 page
        (λ x p b. small x p (omega arith)) here.0.host one.second in
    (IsPlaced-trans here.0 rest.0, λ b. rest.1 (here.2 q b))

-- Every segment that is read is placed.
loop-reads :
    (file : File) (ehdr : Ehdr) (q : Phdr) (j i left : ℕ) (m : Mmu) (mem : Memory) {m' : Mmu}
    {mem' : Memory}
    → file.pagesize ≡ 4096
    → ((x : ℕ) (p : Phdr)
        → x < i + left
        → load_phdr file ehdr x ≡ ok p
        → p.p_type ≡ pt_load
        → IsSmall p)
    → IsHost m
    → i ≤ j
    → j < i + left
    → load_phdr file ehdr j ≡ ok q
    → q.p_type ≡ pt_load
    → load_segments file ehdr i left m mem ≡ ok (m', mem')
    → IsPlaced m m' × IsBehind q m'
unfolding load_segments
loop-reads file ehdr q j i zero m mem page small h a b r t e = absurd (omega arith)
loop-reads file ehdr q j i (suc left) m mem page small h a b r t e =
    let header = chained (load_phdr file ehdr i) e in
    let p = header.between in
    let one = chained (round file p m mem) header.second in
    let here =
      round-IsPlaced file p m mem page (small i p (omega arith) header.first) h one.first in
    elim (Bool-cases (i == j)) [
      | inl now ↦
          let same : p ≡ q = ground (arith, header.first) in
          let behind = here.1 (ground arith) in
          let rest =
            loop-IsBehind file ehdr q (suc i) left one.between.0 one.between.1 page
              (λ x p b. small x p (omega arith)) here.0.host one.second in
          (IsPlaced-trans here.0 rest.0, rest.1 (subst (λ t. IsBehind t one.between.0) same behind))
      | inr other ↦
          let rest =
            loop-reads file ehdr q j (suc i) left one.between.0 one.between.1 page
              (λ x p b. small x p (omega arith)) here.0.host (ground arith) (omega arith) r t
              one.second in
          (IsPlaced-trans here.0 rest.0, rest.1)
    ]

-- Let pages have 4096 bytes, let nothing be mapped before, let the header pass the checks and each
-- loadable segment that it counts end below 2^46. When `mmu_load_elf` returns, with at least one such
-- segment: the heap is well-formed and empty, it begins at or above the end of each of
-- them, and the entry is that of the header.
pub mmu_load_elf-IsMmu :
    (file : File) (m : Mmu) (mem : Memory) (ehdr : Ehdr) (j : ℕ) (p : Phdr) {m' : Mmu}
    {mem' : Memory}
    → file.pagesize ≡ 4096
    → m.host_alloc ≡ 0
    → load_ehdr file ≡ ok ehdr
    → ((i : ℕ) (q : Phdr)
        → i < ehdr.e_phnum
        → load_phdr file ehdr i ≡ ok q
        → q.p_type ≡ pt_load
        → q.p_vaddr + q.p_memsz < 2 ^ 46)
    → j < ehdr.e_phnum
    → load_phdr file ehdr j ≡ ok p
    → p.p_type ≡ pt_load
    → mmu_load_elf file m mem ≡ ok (m', mem')
    → IsMmu m'
      × (p.p_vaddr + p.p_memsz ≤ m'.base)
      × (m'.alloc ≡ m'.base)
      × (m'.entry ≡ ehdr.e_entry)
unfolding mmu_load_elf
mmu_load_elf-IsMmu file m mem ehdr j p {m' = m'} {mem' = mem'} page fresh head small b r t e =
    let checked = chained (load_ehdr file) e in
    let same : checked.between ≡ ehdr = ground (arith, checked.first) in
    let run =
      subst
        (λ t. load_segments file t 0 t.e_phnum (record m { entry = t.e_entry }) mem ≡ ok (m', mem'))
        same checked.second in
    let (placed, behind) =
      loop-reads file ehdr p j 0 ehdr.e_phnum (record m { entry = ehdr.e_entry }) mem page
        (λ x q c. small x q (omega arith)) (record { aligned = ground arith; bound = ground arith })
        (omega arith) (omega arith) r t run in
    let guest =
      to_guest_lem m'.host_alloc (omega (arith, behind.above)) (omega (arith, placed.host.bound)) in
    (
      record {
        base_le = omega (arith, behind.base, behind.alloc);
        alloc_le = omega (arith, behind.alloc, guest, behind.above);
        aligned = placed.host.aligned;
        bound = placed.host.bound;
      },
      omega (arith, behind.base, behind.above, guest),
      behind.alloc ∙ sym behind.base,
      placed.entry,
    )
