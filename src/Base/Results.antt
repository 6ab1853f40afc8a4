-- ===== src/Base/Results.antt =====
-- What a Go function with an error result does: it returns, it reports an error, or it panics
-- (an index or a slice bound out of range).
use Prim.Native.Nat.{ℕ, ◌^◌}
use mathlib.Core.Path.{◌≡◌, refl, subst}
use mathlib.Core.Bool.{Bool, true, false}
use go_mdf.Base.Tests.{if◌then◌else◌}
use mathlib.Core.Logic.{◌≢◌}

pub data Error : Type 0 where
  out_of_bounds : Error
  invalid_block : Error
  unsupported : Error
  column_storage : Error
  unexpected_block : Error
  gap : Error
  inflate_failed : Error
  short_input : Error
  unknown_record : Error
  bad_spec : Error
  bad_formula : Error

pub data Outcome {ℓ} (A : Type ℓ) : Type ℓ where
  ok : A → Outcome A
  err : Error → Outcome A
  panic : Outcome A

infixl 5 ◌>>=◌ ◌>>◌
abbrev pub ◌>>=◌ {ℓ κ} : {A : Type ℓ} {B : Type κ} → Outcome A → (A → Outcome B) → Outcome B
ok a >>= f = f a
err e >>= f = err e
panic >>= f = panic

abbrev pub ◌>>◌ {ℓ} : {B : Type ℓ} → Outcome (Unit {0}) → Outcome B → Outcome B
m >> k = m >>= λ _. k

-- The most bytes that Go's `make` allocates on a 64-bit machine; it panics on more.
abbrev pub max_alloc : ℕ
max_alloc = 2 ^ 48

-- `r` does not panic, and what it returns satisfies `P`.
pub data Post {ℓ} {A : Type ℓ} (P : A → Type 0) : Outcome A → Type ℓ where
  returns : {a : A} → P a → Post P (ok a)
  raises : {e : Error} → Post P (err e)

module _ {ℓ κ} {A : Type ℓ} {B : Type κ} where
  pub Post-bind :
      {P : A → Type 0} {Q : B → Type 0} {r : Outcome A} {f : A → Outcome B}
      → Post P r
      → ((a : A) → P a → Post Q (f a))
      → Post Q (r >>= f)
  Post-bind (returns h) k = k _ h
  Post-bind raises k = raises

pub Post-map {ℓ} :
    {A : Type ℓ} {P Q : A → Type 0} {r : Outcome A} → Post P r → ((a : A) → P a → Q a) → Post Q r
Post-map (returns h) k = returns (k _ h)
Post-map raises k = raises

pub Post-if {ℓ} :
    {A : Type ℓ} {P : A → Type 0} {x y : Outcome A} (b : Bool)
    → (b ≡ true → Post P x)
    → (b ≡ false → Post P y)
    → Post P (if b then x else y)
Post-if true hx hy = hx refl
Post-if false hx hy = hy refl

pub Post-ok {ℓ} : {A : Type ℓ} {P : A → Type 0} {a : A} → Post P (ok a) → P a
Post-ok (returns h) = h

pub Post-ne-panic {ℓ} : {A : Type ℓ} {P : A → Type 0} {r : Outcome A} → Post P r → r ≢ panic
Post-ne-panic (returns h) e = cc
Post-ne-panic raises e = cc

-- What `r` returns, in the form that a caller with `r ≡ ok a` uses.
pub Post-eq-ok {ℓ} :
    {A : Type ℓ} {P : A → Type 0} {r : Outcome A} {a : A} → Post P r → r ≡ ok a → P a
Post-eq-ok {P = P} h e = Post-ok (subst (Post P) e h)

pub bind_assoc :
    {A B C : Type 0} (r : Outcome A) (f : A → Outcome B) (g : B → Outcome C)
    → (r >>= f >>= g) ≡ (r >>= λ a. f a >>= g)
bind_assoc (ok a) f g = refl
bind_assoc (err e) f g = refl
bind_assoc panic f g = refl

pub bind-ap :
    {A B : Type 0} (r : Outcome A) (f g : A → Outcome B)
    → ((a : A) → f a ≡ g a)
    → (r >>= f) ≡ (r >>= g)
bind-ap (ok a) f g h = h a
bind-ap (err e) f g h = refl
bind-ap panic f g h = refl
