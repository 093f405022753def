-- ===== src/Base/Assert.antt =====
-- What Rust's unit tests are written with: a test panics, or it passes.
use mathlib.Core.Path.{◌≡◌}
use mathlib.Core.Bool.{Bool, true, false}
use zoocooker.Base.Exec.{Result, ok, err, panic, Exec}

module _ {ℓ κ ι} {S : Type ℓ} {E : Type κ} {A : Type ι} where
  abbrev unwrapped : Result E A × S → Result E A × S
  unwrapped (ok a, s) = (ok a, s)
  unwrapped (err e, s) = (panic, s)
  unwrapped (panic, s) = (panic, s)

  abbrev failing : Result E A × S → Result E E × S
  failing (ok a, s) = (panic, s)
  failing (err e, s) = (ok e, s)
  failing (panic, s) = (panic, s)

  -- `.unwrap()`
  abbrev pub unwrap : Exec S E A → Exec S E A
  unwrap m s = unwrapped (m s)

  -- `.unwrap_err()`, and the tests that ask for an error by `matches!`
  abbrev pub unwrap_err : Exec S E A → Exec S E E
  unwrap_err m s = failing (m s)

module _ {ℓ κ} {S : Type ℓ} {E : Type κ} where
  -- `assert!(b)`
  abbrev pub assert : Bool → Exec S E (Unit {0})
  assert true s = (ok tt, s)
  assert false s = (panic, s)

  abbrev pub Passes : Exec S E (Unit {0}) → S → Type κ
  Passes test s = (test s).0 ≡ ok tt
