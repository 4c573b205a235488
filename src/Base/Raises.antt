-- ===== src/Base/Raises.antt =====
-- Python's exceptions as values: the outcome of code that may raise.
use mathlib.Core.Path.{◌≡◌, refl}
use mathlib.Core.Bool.{Bool, true, false}

pub data Error : Type 0 where
  value_error assertion_error key_error attribute_error stop_iteration recursion_error
        dependency_cycle :
      Error
  round_did_not_terminate inconsistent_assignment : Error

pub data Result {ℓ} (A : Type ℓ) : Type ℓ where
  ok : A → Result A
  err : Error → Result A

module _ {ℓ} {A : Type ℓ} where
  infixl 5 ◌>>=◌ ◌>>◌
  -- An exception ends the block; else the rest runs on the value.
  abbrev pub ◌>>=◌ {κ} : {B : Type κ} → Result A → (A → Result B) → Result B
  err error >>= rest = err error
  ok value >>= rest = rest value

  abbrev pub ◌>>◌ : Result (Unit {0}) → Result A → Result A
  err error >> rest = err error
  ok done >> rest = rest

  pub >>=-eq-ok {κ} :
      {B : Type κ} (run : Result A) (rest : A → Result B) {outcome : B}
      → (run >>= rest) ≡ ok outcome
      → (value : A) × (run ≡ ok value) × (rest value ≡ ok outcome)
  >>=-eq-ok (err error) rest returned = cc
  >>=-eq-ok (ok value) rest returned = (value, refl, returned)

  pub ok_inj : (a b : A) → ok a ≡ ok b → a ≡ b
  ok_inj a b h = cc

-- `assert test`
abbrev pub assert : Bool → Result (Unit {0})
assert true = ok tt
assert false = err assertion_error

-- `if test: raise error`
abbrev pub raise_if : Bool → Error → Result (Unit {0})
raise_if true error = err error
raise_if false error = ok tt
