-- ===== src/Str.antt =====
-- src/str.c: the strings that grow as the code generator appends to them.
pub mod Contents
use riscvemu_study.Prelude.{
  ℕ, ◌+◌, ◌*◌, ◌-◌, ◌^◌, ltb, leb, if◌then◌else◌, u64, update, List, [], ◌∷◌, length, Run, ok,
  fault, segfault, ◌>>=◌, ◌>>◌, assert,
}
use riscvemu_study.Cache.{copy_bytes}

abbrev pub str_max_prealloc : ℕ
str_max_prealloc = 1048576

-- `strhdr_t`, with the number of bytes that the heap block has for `buf`: `str_new` gives none.
pub record Str : Type 0 where
  pub len : ℕ
  pub alloc : ℕ
  pub buf : ℕ → ℕ
  pub room : ℕ

unfoldable pub str_new : Str
str_new = record { len = 0; alloc = 0; buf = λ i. 0; room = 0 }

-- `memcpy(buf + at, t, len)`; a write outside of the heap block is a fault.
unfoldable pub write_at : Str → ℕ → List ℕ → Run Str
write_at s at t =
    if leb (at + length t) s.room
    then ok (record s { buf = copy_bytes s.buf at t })
    else fault segfault

-- The `realloc`, which is taken to succeed
unfoldable pub grow : Str → ℕ → Str
grow s newlen = record s { alloc = newlen; room = newlen + 1 }

unfoldable pub str_make_room : Str → ℕ → Run Str
unfolding grow
str_make_room s addlen =
    let newlen = u64 (s.len + addlen) in
    if leb addlen (u64 (s.alloc + (2 ^ 64 - s.len)))
    then ok s
    else (assert (ltb s.len newlen)
        >> ok (
            if ltb newlen str_max_prealloc
            then grow s (newlen * 2)
            else grow s (u64 (newlen + str_max_prealloc))))

-- `t` without its terminator
unfoldable pub str_append : Str → List ℕ → Run Str
str_append s t = do
  s1 ← str_make_room s (length t)
  s2 ← write_at s1 s1.len t
  write_at (record s2 { len = s1.len + length t }) (s1.len + length t) (0 ∷ [])

unfoldable pub str_clear : Str → Run Str
str_clear s = write_at (record s { len = 0 }) 0 (0 ∷ [])
