-- ===== src/Prelude/Outcome.antt =====
-- The outcome of C code: a value, or the way in which the process stops.
use mathlib.Core.Path.{◌≡◌, refl, ap, subst}
use mathlib.Core.Bool.{Bool, true, false}
use riscvemu_study.Prelude.Tests.{if◌then◌else◌}

-- `assertion` is a failed `assert`, `unreachable` and `fatal` the macros of those names, and
-- `segfault` and `sigfpe` the signals of a bad address and of a division by zero.
pub data Fault : Type 0 where
  assertion unreachable fatal segfault sigfpe : Fault

pub data Run {ℓ} (A : Type ℓ) : Type ℓ where
  ok : A → Run A
  fault : Fault → Run A

infixl 5 ◌>>=◌ ◌>>◌
abbrev pub ◌>>=◌ {ℓ κ} : {A : Type ℓ} {B : Type κ} → Run A → (A → Run B) → Run B
ok a >>= f = f a
fault e >>= f = fault e

abbrev pub ◌>>◌ {ℓ} : {B : Type ℓ} → Run (Unit {0}) → Run B → Run B
m >> k = m >>= λ _. k

-- A view of the value, with the faults kept.
abbrev pub map_run {ℓ κ} : {A : Type ℓ} {B : Type κ} → (A → B) → Run A → Run B
map_run f (ok a) = ok (f a)
map_run f (fault e) = fault e

-- `assert(b)`
abbrev pub assert : Bool → Run (Unit {0})
assert true = ok tt
assert false = fault assertion

-- What holds of the value, if there is one.
pub record Ensures {ℓ κ} {A : Type ℓ} (P : A → Type κ) (m : Run A) : Type (ℓ ⊔ κ) where
  pub holds : (a : A) → m ≡ ok a → P a

value_or {ℓ} : {A : Type ℓ} → A → Run A → A
value_or d (ok a) = a
value_or d (fault e) = d

module _ {ℓ κ} {A : Type ℓ} {P : A → Type κ} where
  pub Ensures-ok : {a : A} → P a → Ensures P (ok a)
  unfolding value_or
  Ensures-ok {a} h = record { holds = λ b e. subst P (ap (value_or a) e) h }

  pub Ensures-fault : {e : Fault} → Ensures P (fault e)
  Ensures-fault = record { holds = λ b q. absurd (cc) }

  pub Ensures-if :
      (b : Bool) {m n : Run A} → Ensures P m → Ensures P n → Ensures P (if b then m else n)
  Ensures-if true h k = h
  Ensures-if false h k = k

  pub Ensures-assert : (b : Bool) {m : Run A} → Ensures P m → Ensures P (assert b >> m)
  Ensures-assert true h = h
  Ensures-assert false h = Ensures-fault

pub Ensures->>= {ℓ κ μ ν} :
    {A : Type ℓ} {B : Type μ} {P : A → Type κ} {Q : B → Type ν} {m : Run A} {f : A → Run B}
    → Ensures P m
    → ((a : A) → P a → Ensures Q (f a))
    → Ensures Q (m >>= f)
Ensures->>= {m = ok a} h k = k a (h.holds a refl)
Ensures->>= {m = fault e} h k = Ensures-fault

-- A chain of two steps that gives a result: what the first gives, and that the second goes on
-- from there.
pub record Chain {ℓ κ} {A : Type ℓ} {B : Type κ} (m : Run A) (f : A → Run B) (b : B)
    : Type (ℓ ⊔ κ) where
  pub between : A
  pub first : m ≡ ok between
  pub second : f between ≡ ok b

pub chained {ℓ κ} :
    {A : Type ℓ} {B : Type κ} {f : A → Run B} {b : B} (m : Run A) → (m >>= f) ≡ ok b → Chain m f b
chained (fault e) run = cc
chained (ok a) run = record { between = a; first = refl; second = run }
