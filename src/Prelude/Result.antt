-- ===== src/Prelude/Result.antt =====
-- Rust's `Result<A, E>`. The operator `?` is the bind of a do block.
use mathlib.Core.Path.{◌≡◌}
use mathlib.Core.Option.{Option, none, some}

pub data Result {ℓ κ} (E : Type ℓ) (A : Type κ) : Type (ℓ ⊔ κ) where
  err : E → Result E A
  ok : A → Result E A

module _ {ℓ κ} {E : Type ℓ} {A : Type κ} where
  -- `ok_or`
  abbrev pub ok_or : Option A → E → Result E A
  ok_or (some value) failure = ok value
  ok_or none failure = err failure

  -- `Result::ok`
  abbrev pub to_option : Result E A → Option A
  to_option (err failure) = none
  to_option (ok value) = some value

  module _ {B : Type κ} where
    infixl 5 ◌>>=◌
    -- The first failure ends the chain.
    abbrev pub ◌>>=◌ : Result E A → (A → Result E B) → Result E B
    err failure >>= next = err failure
    ok value >>= next = next value

    -- A chain that succeeds has a first step that did.
    pub bind_succeeded :
        (first : Result E A) (next : A → Result E B) (b : B)
        → first >>= next ≡ ok b
        → (a : A) × (first ≡ ok a) × (next a ≡ ok b)
    bind_succeeded (err failure) next b h = cc
    bind_succeeded (ok value) next b h = (value, (cc), h)

module _ {ℓ κ} {E F : Type ℓ} {A : Type κ} where
  abbrev pub map_err : (E → F) → Result E A → Result F A
  map_err f (err failure) = err (f failure)
  map_err f (ok value) = ok value
