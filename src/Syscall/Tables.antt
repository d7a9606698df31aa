-- ===== src/Syscall/Tables.antt =====
-- The arrays of functions of src/syscall.c, as their initialisers.
use riscvemu_study.Prelude.{
  ℕ, suc, ltb, ◌==◌, if◌then◌else◌, List, [], ◌∷◌, Run, ok, fault, segfault,
}

-- What an element points to; `null` is one without an initialiser.
pub data Function : Type 0 where
  null unimplemented : Function
  exit_call read_call write_call openat_call close_call fstat_call lseek_call brk_call
        gettimeofday_call open_call :
      Function

-- A number in brackets, and the function
abbrev pub Table : Type 0
Table = List (ℕ × Function)

-- `ARRAY_SIZE`: the array reaches up to the largest number.
unfoldable pub array_size : Table → ℕ
array_size [] = 0
array_size ((i, f) ∷ rest) = let n = array_size rest in if ltb i n then n else suc i

unfoldable pub element : Table → ℕ → Function
element [] n = null
element ((i, f) ∷ rest) n = if i == n then f else element rest n

-- `table[n]`; behind its end, the read is out of bounds.
unfoldable pub read_table : Table → ℕ → Run Function
read_table t n = if ltb n (array_size t) then ok (element t n) else fault segfault

unfoldable pub syscall_table : Table
syscall_table =
    (93, Function.exit_call)
    ∷ (94, Function.exit_call)
    ∷ (63, Function.read_call)
    ∷ (67, unimplemented)
    ∷ (64, Function.write_call)
    ∷ (56, Function.openat_call)
    ∷ (57, Function.close_call)
    ∷ (80, Function.fstat_call)
    ∷ (291, unimplemented)
    ∷ (62, Function.lseek_call)
    ∷ (79, unimplemented)
    ∷ (37, unimplemented)
    ∷ (35, unimplemented)
    ∷ (34, unimplemented)
    ∷ (38, unimplemented)
    ∷ (17, unimplemented)
    ∷ (214, Function.brk_call)
    ∷ (160, unimplemented)
    ∷ (172, unimplemented)
    ∷ (174, unimplemented)
    ∷ (175, unimplemented)
    ∷ (176, unimplemented)
    ∷ (177, unimplemented)
    ∷ (178, unimplemented)
    ∷ (131, unimplemented)
    ∷ (222, unimplemented)
    ∷ (215, unimplemented)
    ∷ (216, unimplemented)
    ∷ (226, unimplemented)
    ∷ (134, unimplemented)
    ∷ (169, Function.gettimeofday_call)
    ∷ (153, unimplemented)
    ∷ (66, unimplemented)
    ∷ (48, unimplemented)
    ∷ (25, unimplemented)
    ∷ (46, unimplemented)
    ∷ (61, unimplemented)
    ∷ (23, unimplemented)
    ∷ (24, unimplemented)
    ∷ (135, unimplemented)
    ∷ (113, unimplemented)
    ∷ (49, unimplemented)
    ∷ []

-- The numbers are less `OLD_SYSCALL_THRESHOLD`.
unfoldable pub old_syscall_table : Table
old_syscall_table =
    (0, Function.open_call)
    ∷ (1, unimplemented)
    ∷ (2, unimplemented)
    ∷ (6, unimplemented)
    ∷ (9, unimplemented)
    ∷ (14, unimplemented)
    ∷ (15, unimplemented)
    ∷ (38, unimplemented)
    ∷ []
