-- ===== src/Tests/Strings.antt =====
-- Appends to a new string.
use riscvemu_study.Prelude.{ℕ, ◌≡◌, ◌++◌, inr, refl, arith, List, [], ◌∷◌, ok, fault, segfault}
use riscvemu_study.Str.{Str, str_new, str_make_room, write_at, str_append}
use riscvemu_study.Str.Contents.{IsStr, text, str_append-text}

-- An append of the empty text to a new string writes its terminator outside of the heap block.
empty_append : str_append str_new [] ≡ fault segfault
unfolding str_append str_new str_make_room write_at
empty_append = refl

new-IsStr : IsStr str_new
unfolding str_new
new-IsStr = record { fits = omega arith; block = inr (refl, refl) }

abbrev greeting : List ℕ
greeting = 104 ∷ 105 ∷ []

str_append-text_example :
    (s' : Str) × (str_append str_new greeting ≡ ok s')
    × IsStr s'
    × (text s' ≡ text str_new ++ greeting)
str_append-text_example =
    str_append-text str_new greeting new-IsStr (λ e. absurd (cc)) (unfold str_new in omega arith)
      (omega arith)
