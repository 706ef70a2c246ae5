-- ===== src/Exec.antt =====
-- How a Go function ends and what it does to the world outside: a result, an error, or a panic (a
-- nil pointer is dereferenced); `out_of_fuel` says that a loop goes on for longer than the model
-- follows it. `Exec W A` is a function that talks to a server of state `W`.
use go_git_providers.Prelude.{◌≡◌, refl, Option, none, some}
use go_git_providers.Errors.{Err}

pub data Result {ℓ} (T : Type ℓ) : Type ℓ where
  ok : T → Result T
  err : Err → Result T
  panic : Result T
  out_of_fuel : Result T

abbrev pub and_then {ℓ κ} : {S : Type ℓ} {T : Type κ} → (m : Result S) (f : S → Result T) → Result T
and_then (ok a) f = f a
and_then (err e) f = err e
and_then panic f = panic
and_then out_of_fuel f = out_of_fuel

-- Inversion of a chain that succeeded.
pub and_then-eq-ok {ℓ κ} :
    {S : Type ℓ} {T : Type κ} (m : Result S) (f : S → Result T) {t : T}
    → and_then m f ≡ ok t
    → (s : S) × (m ≡ ok s) × (f s ≡ ok t)
and_then-eq-ok (ok a) f h = (a, refl, h)
and_then-eq-ok (err e) f h = cc
and_then-eq-ok panic f h = cc
and_then-eq-ok out_of_fuel f h = cc

-- `*p`
abbrev pub deref {ℓ} : {A : Type ℓ} → Option A → Result A
deref none = panic
deref (some a) = ok a

-- `if err != nil { return err }`
abbrev pub check : Option Err → Result (Unit {0})
check none = ok tt
check (some e) = err e

abbrev pub Exec : Type 0 → Type 0 → Type 0
Exec W A = W → Result A × W

module _ {W A : Type 0} where
  abbrev pub pure : A → Exec W A
  pure a w = (ok a, w)

  -- A computation that makes no request.
  abbrev pub lift : Result A → Exec W A
  lift r w = (r, w)

  abbrev pub fail : Err → Exec W A
  fail e w = (err e, w)

module _ {W A B : Type 0} where
  abbrev pub continue : Result A → (A → Exec W B) → Exec W B
  continue (ok a) f w = f a w
  continue (err e) f w = (err e, w)
  continue panic f w = (panic, w)
  continue out_of_fuel f w = (out_of_fuel, w)

  infixl 5 ◌>>=◌ ◌>>◌
  abbrev pub ◌>>=◌ : Exec W A → (A → Exec W B) → Exec W B
  ◌>>=◌ m f w = let (r, w') = m w in continue r f w'

  abbrev pub ◌>>◌ : Exec W A → Exec W B → Exec W B
  m >> n = m >>= λ _. n

  -- From a call that succeeded the computation goes on.
  pub bind-ok :
      (m : Exec W A) (f : A → Exec W B) {w v : W} {a : A} → m w ≡ (ok a, v) → (m >>= f) w ≡ f a v
  bind-ok m f h = rw h

-- A call whose error the caller looks at: `x, err := m()`.
pub data Attempt (A : Type 0) : Type 0 where
  got : A → Attempt A
  failed : Err → Attempt A

abbrev pub settle : {A : Type 0} → Result A → Result (Attempt A)
settle (ok a) = ok (got a)
settle (err e) = ok (failed e)
settle panic = panic
settle out_of_fuel = out_of_fuel

abbrev pub attempt : {W A : Type 0} → Exec W A → Exec W (Attempt A)
attempt m w = let (r, w') = m w in (settle r, w')
