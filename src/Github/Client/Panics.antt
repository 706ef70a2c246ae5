-- ===== src/Github/Client/Panics.antt =====
-- No panic comes of following the pages of a listing and checking its objects.
use go_git_providers.Prelude.{
  ℕ, String, zero, suc, ◌≡◌, ◌≢◌, refl, subst, Bool-cases, inl, inr, Option, none, some, List, [],
  ◌∷◌, ◌++◌, All, arith, ◌==◌, nat_eq,
}
use go_git_providers.Errors.{Err}
use go_git_providers.Exec.{
  Result, ok, err, panic, out_of_fuel, and_then, Exec, lift, continue, ◌>>=◌,
}
use go_git_providers.Github.Api.{Listing}
use go_git_providers.Github.Checks.{validate_all, first_error, expect_set}
use go_git_providers.Github.Client.{list_orgs, list_org_teams, list_org_team_members}
use go_git_providers.Github.Client
use go_git_providers.Github.Context.{ClientContext}
use go_git_providers.Github.Util.{all_pages, calling, handled}

-- In no state of the server does the call panic.
abbrev pub NeverPanics : {W A : Type 0} → Exec W A → Type 0
NeverPanics {W} m = (w : W) → (m w).0 ≢ panic

continue-ne-panic :
    {W A B : Type 0} (r : Result A) (f : A → Exec W B) (v : W)
    → r ≢ panic
    → ((a : A) → r ≡ ok a → (f a v).0 ≢ panic)
    → (continue r f v).0 ≢ panic
continue-ne-panic (ok a) f v h k = k a refl
continue-ne-panic (err e) f v h k = λ q. cc
continue-ne-panic panic f v h k = λ q. h refl
continue-ne-panic out_of_fuel f v h k = λ q. cc

pub bind-NeverPanics :
    {W A B : Type 0} (m : Exec W A) (f : A → Exec W B)
    → NeverPanics m
    → ((a : A) (w : W) → (m w).0 ≡ ok a → NeverPanics (f a))
    → NeverPanics (m >>= f)
bind-NeverPanics m f h k w = continue-ne-panic (m w).0 f (m w).1 (h w) (λ a e. k a w e (m w).1)

handled-ne-panic : {A : Type 0} (r : Result A) → r ≢ panic → handled r ≢ panic
unfolding handled
handled-ne-panic (ok a) h = λ q. cc
handled-ne-panic (err e) h = λ q. cc
handled-ne-panic panic h = λ q. h refl
handled-ne-panic out_of_fuel h = λ q. cc

calling-NeverPanics : {W A : Type 0} (m : Exec W A) → NeverPanics m → NeverPanics (calling m)
unfolding calling
calling-NeverPanics m h w = handled-ne-panic (m w).0 (h w)

pub all_pages-NeverPanics :
    {W A : Type 0} (listing : Listing W A)
    → ((p : ℕ) → NeverPanics (listing p))
    → (fuel p : ℕ) (objs : List A) → NeverPanics (all_pages fuel listing p objs)
unfolding all_pages
all_pages-NeverPanics listing h zero p objs w = λ q. cc
all_pages-NeverPanics listing h (suc fuel) p objs w =
    bind-NeverPanics (calling (listing p)) _ (calling-NeverPanics (listing p) (h p))
      (λ a v e. elim (Bool-cases (a.1 == 0)) [
        | inl z ↦ rw z (λ x q. cc)
        | inr z ↦ rw z (all_pages-NeverPanics listing h fuel a.1 (objs ++ a.0))
      ])
      w

first_error-valid :
    {A : Type 0} (valid : A → Option Err) (xs : List A)
    → first_error valid xs ≡ none
    → All (λ a. valid a ≡ none) xs
unfolding first_error
first_error-valid valid [] h = tt
first_error-valid valid (x ∷ xs) h = (ground arith, first_error-valid valid xs (ground arith))

validate_all-valid :
    {A : Type 0} (valid : A → Option Err) (xs ys : List A)
    → validate_all valid xs ≡ ok ys
    → All (λ a. valid a ≡ none) ys
unfolding validate_all
validate_all-valid valid xs ys h =
    let p : (first_error valid xs ≡ none) × (xs ≡ ys) = ground arith in
    subst (λ l. All (λ a. valid a ≡ none) l) p.1 (first_error-valid valid xs p.0)

validate_all-ne-panic :
    {A : Type 0} (valid : A → Option Err) (xs : List A) → validate_all valid xs ≢ panic
unfolding validate_all
validate_all-ne-panic valid xs = λ q. ground (arith, q)

continue-lift :
    {W A B : Type 0} (r : Result A) (g : A → Result B) (v : W) (b : B)
    → (continue r (λ a. lift (g a)) v).0 ≡ ok b
    → (a : A) × (g a ≡ ok b)
continue-lift (ok a) g v b h = (a, h)
continue-lift (err e) g v b h = cc
continue-lift panic g v b h = cc
continue-lift out_of_fuel g v b h = cc

module _ {W : Type 0} (c : ClientContext W) where
  -- What a listing returns has passed its check.
  pub list-valid :
      {A : Type 0} (valid : A → Option Err) (listing : Listing W A) (w : W) (xs : List A)
      → (Client.list c valid listing w).0 ≡ ok xs
      → All (λ a. valid a ≡ none) xs
  unfolding Client.list
  list-valid valid listing w xs h =
      let (objs, e) =
        continue-lift (all_pages c.fuel listing 0 [] w).0 (λ objs. validate_all valid objs)
          (all_pages c.fuel listing 0 [] w).1 xs h in
      validate_all-valid valid objs xs e

  pub list-NeverPanics :
      {A : Type 0} (valid : A → Option Err) (listing : Listing W A)
      → ((p : ℕ) → NeverPanics (listing p))
      → NeverPanics (Client.list c valid listing)
  unfolding Client.list
  list-NeverPanics valid listing h =
      bind-NeverPanics (all_pages c.fuel listing 0 []) (λ objs. lift (validate_all valid objs))
        (all_pages-NeverPanics listing h c.fuel 0 []) (λ a w e v. validate_all-ne-panic valid a)

pub expect_set-some :
    {A : Type 0} (format : String) (o : Option A)
    → expect_set format o ≡ none
    → (a : A) × (o ≡ some a)
unfolding expect_set
expect_set-some format none h = cc
expect_set-some format (some a) h = (a, refl)

pub and_then-ne-panic :
    {A B : Type 0} (m : Result A) (f : A → Result B)
    → m ≢ panic
    → ((a : A) → f a ≢ panic)
    → and_then m f ≢ panic
and_then-ne-panic (ok a) f h k = k a
and_then-ne-panic (err e) f h k = λ q. cc
and_then-ne-panic panic f h k = λ q. h refl
and_then-ne-panic out_of_fuel f h k = λ q. cc
