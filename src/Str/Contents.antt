-- ===== src/Str/Contents.antt =====
-- The string as the list of its characters.
use native.Mathlib.Nat.{le_refl}
use riscvemu_study.Prelude.{
  ℕ, ◌+◌, ◌-◌, ◌*◌, ◌^◌, ◌≤◌, ◌<◌, ◌≡◌, ◌≢◌, ◌⊎◌, inl, inr, refl, ap, sym, ◌∙◌, arith, ltb, leb,
  Bool-cases, u64, update, List, [], ◌∷◌, ◌++◌, length, ok,
}
use riscvemu_study.Cache.{copy_bytes}
use riscvemu_study.Stack.View.{below, below-update, below_snoc}
use riscvemu_study.Str.{Str, str_max_prealloc, write_at, grow, str_make_room, str_append}

unfoldable pub text : Str → List ℕ
text s = below s.buf s.len

++-assoc : (xs : List ℕ) (y : ℕ) (zs : List ℕ) → (xs ++ y ∷ []) ++ zs ≡ xs ++ y ∷ zs
++-assoc [] y zs = refl
++-assoc (x ∷ xs) y zs = ap (λ l. x ∷ l) (++-assoc xs y zs)

++-empty : (xs : List ℕ) → xs ++ [] ≡ xs
++-empty [] = refl
++-empty (x ∷ xs) = ap (λ l. x ∷ l) (++-empty xs)

below-copy_bytes :
    (buf : ℕ → ℕ) (at : ℕ) (t : List ℕ)
    → below (copy_bytes buf at t) (at + length t) ≡ below buf at ++ t
unfolding copy_bytes
below-copy_bytes buf at [] = ap (below buf) (omega arith) ∙ sym (++-empty (below buf at))
below-copy_bytes buf at (b ∷ t) =
    ap (below (copy_bytes (update buf at b) (at + 1) t)) (omega arith)
    ∙ (below-copy_bytes (update buf at b) (at + 1) t
        ∙ (ap (λ l. l ++ t) (below_snoc buf at b) ∙ ++-assoc (below buf at) b t))

-- The characters fit, and the heap block has a byte more than `alloc` says, or it is new.
pub record IsStr (s : Str) : Type 0 where
  pub fits : s.len ≤ s.alloc
  pub block : (s.room ≡ s.alloc + 1) ⊎ ((s.alloc ≡ 0) × (s.room ≡ 0))

-- Room for the characters and the terminator
record HasRoom (s : Str) (n : ℕ) (s' : Str) : Type 0 where
  made : str_make_room s n ≡ ok s'
  same_len : s'.len ≡ s.len
  same_buf : s'.buf ≡ s.buf
  enough : s.len + n ≤ s'.alloc
  block : s'.room ≡ s'.alloc + 1

make_room :
    (s : Str) (n : ℕ)
    → IsStr s
    → 0 < n
    → s.alloc < 2 ^ 62
    → n < 2 ^ 62
    → (s' : Str) × HasRoom s n s'
unfolding str_make_room grow
make_room s n h p q r = elim (Bool-cases (leb n (u64 (s.alloc + (2 ^ 64 - s.len))))) [
  | inl fits ↦ (
    s,
    record {
      made = ground (arith, h.fits);
      same_len = refl;
      same_buf = refl;
      enough = ground (arith, h.fits);
      block = ground (arith, h.fits, h.block);
    },
  )
  | inr short ↦ elim (Bool-cases (ltb (s.len + n) str_max_prealloc)) [
    | inl small ↦ (
      grow s ((s.len + n) * 2),
      record {
        made = ground (arith, h.fits);
        same_len = refl;
        same_buf = refl;
        enough = omega arith;
        block = refl;
      },
    )
    | inr large ↦ (
      grow s (s.len + n + str_max_prealloc),
      record {
        made = ground (arith, h.fits);
        same_len = refl;
        same_buf = refl;
        enough = omega arith;
        block = refl;
      },
    )
  ]
]

-- The string after an append, in the room that was made.
abbrev appended : Str → List ℕ → Str
appended s t = record s {
  len = s.len + length t;
  buf = copy_bytes (copy_bytes s.buf s.len t) (s.len + length t) (0 ∷ []);
}

append_in :
    (s s1 : Str) (t : List ℕ) → HasRoom s (length t) s1 → str_append s t ≡ ok (appended s1 t)
unfolding str_append write_at
append_in s s1 t h =
    let made = h.made in
    let fits : s1.len + length t + 1 ≤ s1.room = omega (arith, h) in ground arith

appended-text : (s : Str) (t : List ℕ) → text (appended s t) ≡ text s ++ t
unfolding text copy_bytes
appended-text s t =
    below-update (copy_bytes s.buf s.len t) (s.len + length t) (s.len + length t) 0 (le_refl _)
    ∙ below-copy_bytes s.buf s.len t

-- Below 2^62 bytes, an append of a text that is not empty succeeds: the string is well-formed
-- again, and the text stands behind what it held.
pub str_append-text :
    (s : Str) (t : List ℕ)
    → IsStr s
    → t ≢ []
    → s.alloc < 2 ^ 62
    → length t < 2 ^ 62
    → (s' : Str) × (str_append s t ≡ ok s') × IsStr s' × (text s' ≡ text s ++ t)
unfolding text
str_append-text s t h p q r =
    let (s1, made) = make_room s (length t) h (positive t p) q r in
    (
      appended s1 t,
      append_in s s1 t made,
      record { fits = omega (arith, made); block = inl made.block },
      appended-text s1 t
          ∙ (ap (λ b. below b s1.len ++ t) made.same_buf
              ∙ ap (λ n. below s.buf n ++ t) made.same_len),
    )
  where
    positive : (l : List ℕ) → l ≢ [] → 0 < length l
    positive [] n = absurd (n refl)
    positive (x ∷ l) n = omega arith
