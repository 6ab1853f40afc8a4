-- ===== src/Reading/Sound.antt =====
-- What a section promises, and what a computation on the readers' state does.
use go_mdf.Base.{
  ℕ, ◌+◌, ◌≤◌, ◌≡◌, refl, sym, subst, length, take, drop, Outcome, ok, err, panic, ◌>>=◌,
}
use go_mdf.Base.Words.{Bytes}
use go_mdf.Reading.{Section}

-- A section that stands for a stream of bytes: in the states of `Valid` a read inside of the
-- stream returns its bytes and leaves such a state.
pub record IsSection {S : Type 0} (section : Section S) (Valid : S → Type 0) (whole : Bytes)
    : Type 0 where
  pub same_size : section.size ≡ length whole
  pub reads :
      (n off : ℕ) (s : S)
      → Valid s
      → off + n ≤ length whole
      → (after : S) × (section.read n off s ≡ ok (take n (drop off whole), after)) × Valid after

-- `r` does what `t` does and leaves a valid state.
abbrev pub Does : {A S : Type 0} → (S → Type 0) → Outcome (A × S) → Outcome A → Type 0
Does {S} Valid r t = (after : S) × (r ≡ (t >>= λ a. ok (a, after))) × Valid after

pub Does-bind :
    {A B S : Type 0} (Valid : S → Type 0) (s : S) (t : Outcome A) (f : A → Outcome (B × S))
    (g : A → Outcome B)
    → Valid s
    → ((a : A) → Does Valid (f a) (g a))
    → Does Valid (t >>= f) (t >>= g)
Does-bind Valid s (ok a) f g v h = h a
Does-bind Valid s (err e) f g v h = (s, refl, v)
Does-bind Valid s panic f g v h = (s, refl, v)

after-bind :
    {A B S : Type 0} (Valid : S → Type 0) (after : S) (t : Outcome A) (f : A × S → Outcome (B × S))
    (g : A → Outcome B)
    → Valid after
    → ((a : A) (s : S) → Valid s → Does Valid (f (a, s)) (g a))
    → Does Valid ((t >>= λ a. ok (a, after)) >>= f) (t >>= g)
after-bind Valid after (ok a) f g v h = h a after v
after-bind Valid after (err e) f g v h = (after, refl, v)
after-bind Valid after panic f g v h = (after, refl, v)

pub Does-seq :
    {A B S : Type 0} (Valid : S → Type 0) (r : Outcome (A × S)) (t : Outcome A)
    (f : A × S → Outcome (B × S)) (g : A → Outcome B)
    → Does Valid r t
    → ((a : A) (s : S) → Valid s → Does Valid (f (a, s)) (g a))
    → Does Valid (r >>= f) (t >>= g)
Does-seq Valid r t f g (after, e, v) h =
    subst (λ x. Does Valid (x >>= f) (t >>= g)) (sym e) (after-bind Valid after t f g v h)
