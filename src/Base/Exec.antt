-- ===== src/Base/Exec.antt =====
-- Results, and methods on `&mut self` that may fail: what was written before an early return stays
-- written, so the state comes back beside the error too. `panic` is an `expect` that does not hold.
use mathlib.Core.Path.{◌≡◌, refl}
use mathlib.Core.Logic.{◌⊎◌, inl, inr}
use mathlib.Core.Bool.{Bool, true, false}
use mathlib.Core.Option.{Option, none, some}

pub data Result {ℓ κ} (E : Type ℓ) (A : Type κ) : Type (ℓ ⊔ κ) where
  ok : A → Result E A
  err : E → Result E A
  panic : Result E A

abbrev pub Exec {ℓ κ ι} : Type ℓ → Type κ → Type ι → Type (ℓ ⊔ κ ⊔ ι)
Exec S E A = S → Result E A × S

module _ {ℓ κ} {E : Type ℓ} {A : Type κ} where
  -- `o.ok_or(e)`
  abbrev pub ok_or : Option A → E → Result E A
  ok_or none e = err e
  ok_or (some a) e = ok a

  -- `o.expect(..)`
  abbrev pub expect : Option A → Result E A
  expect none = panic
  expect (some a) = ok a

module _ {ℓ κ ι} {S : Type ℓ} {E : Type κ} {A : Type ι} where
  abbrev pub pure : A → Exec S E A
  pure a s = (ok a, s)

  abbrev pub raise : E → Exec S E A
  raise e s = (err e, s)

  abbrev pub lift : Result E A → Exec S E A
  lift r s = (r, s)

  abbrev pub gets : (S → A) → Exec S E A
  gets f s = (ok (f s), s)

module _ {ℓ κ} {S : Type ℓ} {E : Type κ} where
  -- `if b { return Err(e) }`
  abbrev pub reject_if : Bool → E → Exec S E (Unit {0})
  reject_if true e s = (err e, s)
  reject_if false e s = (ok tt, s)

  abbrev pub modify : (S → S) → Exec S E (Unit {0})
  modify f s = (ok tt, f s)

module _ {ℓ κ ι η} {S : Type ℓ} {E : Type κ} {A : Type ι} {B : Type η} where
  abbrev pub continue : Result E A → (A → Exec S E B) → Exec S E B
  continue (ok a) f s = f a s
  continue (err e) f s = (err e, s)
  continue panic f s = (panic, s)

  infixl 10 ◌>>=◌ ◌>>◌
  abbrev pub ◌>>=◌ : Exec S E A → (A → Exec S E B) → Exec S E B
  ◌>>=◌ m f s = let (r, s') = m s in continue r f s'

  abbrev pub ◌>>◌ : Exec S E A → Exec S E B → Exec S E B
  m >> n = m >>= λ _. n

abbrev pub is_ok {ℓ κ} : {E : Type ℓ} {A : Type κ} → Result E A → Bool
is_ok (ok _) = true
is_ok (err _) = false
is_ok panic = false

pub Result-cases {ℓ κ} :
    {E : Type ℓ} {A : Type κ} (r : Result E A) → ((a : A) × (r ≡ ok a)) ⊎ (is_ok r ≡ false)
Result-cases (ok a) = inl (a, refl)
Result-cases (err e) = inr refl
Result-cases panic = inr refl

pub Result-split {ℓ κ} :
    {E : Type ℓ} {A : Type κ} (r : Result E A)
    → ((a : A) × (r ≡ ok a)) ⊎ ((e : E) × (r ≡ err e)) ⊎ (r ≡ panic)
Result-split (ok a) = inl (a, refl)
Result-split (err e) = inr (inl (e, refl))
Result-split panic = inr (inr refl)

module _ {ℓ} {S E A B : Type ℓ} where
  continue-pure :
      (r : Result E A) (f : A → B) (s : S) → (continue r (λ a. pure {E = E} (f a)) s).1 ≡ s
  continue-pure (ok a) f s = refl
  continue-pure (err e) f s = refl
  continue-pure panic f s = refl

  -- what is made of a reply leaves the state
  pub state-map : (m : Exec S E A) (f : A → B) (s : S) → ((m >>= λ a. pure (f a)) s).1 ≡ (m s).1
  state-map m f s = continue-pure (m s).0 f (m s).1

  continue-inv :
      (r : Result E A) (f : A → B) (s : S) (b : B)
      → (continue r (λ a. pure {E = E} (f a)) s).0 ≡ ok b
      → (a : A) × (r ≡ ok a) × (f a ≡ b)
  continue-inv (ok a) f s b h = (a, refl, cc)
  continue-inv (err e) f s b h = cc
  continue-inv panic f s b h = cc

  -- a reply is made of a reply
  pub map-inv :
      (m : Exec S E A) (f : A → B) (s : S) (b : B)
      → ((m >>= λ a. pure (f a)) s).0 ≡ ok b
      → (a : A) × ((m s).0 ≡ ok a) × (f a ≡ b)
  map-inv m f s b h = continue-inv (m s).0 f (m s).1 b h
