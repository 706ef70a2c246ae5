-- ===== src/Github/OrgRepositories/Target.antt =====
-- The object that a repository request leads to, and how it compares with the request.
use go_git_providers.Prelude.{
  ◌≡◌, refl, ap, false, Bool-cases, inl, inr, Option, none, some, Str, arith,
}
use go_git_providers.Errors.{or_else}
use go_git_providers.Exec.{ok}
use go_git_providers.Gitprovider.Enums.Known.{KnownIfSet}
use go_git_providers.Gitprovider.Enums.Visibility.{known_repository_visibility_values}
use go_git_providers.Gitprovider.Info.{
  RepositoryInfo, repository_info, repository_validate_info, repository_equals,
  validate_and_default_info,
}
use go_git_providers.Gitprovider.Info.Laws.{repository_equals_iff, repository_validate_info_iff}
use go_git_providers.Gitprovider.Info.Defaulting.{repository_defaulted}
use go_git_providers.Github.Api.{Repository}
use go_git_providers.Github.Checks.{validate_repository_api}
use go_git_providers.Github.Checks.Laws.{validate_repository_api_iff, IsPresent}
use go_git_providers.Github.Server.{patch}
use go_git_providers.Github.Spec.{repository_from_api, repository_info_to_api_obj}
use go_git_providers.Github.Spec.Laws.{OnlyOthers, settable}

-- A repository on the server that the client takes, with what is to become of it.
pub record IsTaken (r : Repository) : Type 0 where
  pub valid : validate_repository_api r ≡ none
  pub others : OnlyOthers r.other

-- The object that the request leads to.
abbrev pub target : RepositoryInfo → Repository → Repository
target req r = patch (repository_info_to_api_obj req (settable r)) r

pub or_else_twice {ℓ} : {A : Type ℓ} (x y : Option A) → or_else (or_else x y) y ≡ or_else x y
or_else_twice none none = refl
or_else_twice none (some b) = refl
or_else_twice (some a) y = refl

known_or_else :
    (x y : Option Str)
    → KnownIfSet known_repository_visibility_values x
    → KnownIfSet known_repository_visibility_values y
    → KnownIfSet known_repository_visibility_values (or_else x y)
known_or_else none y h k = k
known_or_else (some a) y h k = h

set_or_else {ℓ} : {A : Type ℓ} (x y : Option A) → IsPresent y → IsPresent (or_else x y)
set_or_else none y h = h
set_or_else (some a) y h = tt

pub target-IsTaken :
    (req : RepositoryInfo) (r : Repository)
    → repository_validate_info req ≡ none
    → IsTaken r
    → IsTaken (target req r)
unfolding patch repository_info_to_api_obj
target-IsTaken req r h t =
    let (n, v) = (validate_repository_api_iff r).0 t.valid in
    let q = (repository_validate_info_iff req).0 h in
    record {
      valid =
          (validate_repository_api_iff (target req r)).1
            (set_or_else r.name r.name n, known_or_else _ _ (known_or_else _ _ q v) v);
      others = t.others;
    }

-- A field that was defaulted is set, so that nothing replaces it.
or_else-defaulted {ℓ} :
    {A : Type ℓ} (x i z : Option A) (a : A) → x ≡ or_else i (some a) → or_else x z ≡ x
or_else-defaulted x i z a e = ground arith

-- The object that an accepted request leads to is as requested, if the request has a description
-- wherever the repository has one.
pub get-target :
    (req req' : RepositoryInfo) (r : Repository)
    → validate_and_default_info req ≡ ok req'
    → or_else req.description r.description ≡ req.description
    → repository_from_api (target req' r) ≡ req'
unfolding repository_from_api patch repository_info_to_api_obj
get-target req req' r h d =
    let (a, b, e, _, _) = repository_defaulted req req' h in
    ground (
      arith,
      or_else_twice req'.description r.description,
      or_else_twice req'.default_branch r.default_branch,
      or_else_twice req'.visibility r.visibility,
      or_else-defaulted _ req.visibility r.visibility _ b,
      or_else-defaulted _ req.default_branch r.default_branch _ e,
    )

pub description_differs :
    (req : RepositoryInfo) (r : Repository) (text : Str)
    → req.description ≡ none
    → r.description ≡ some text
    → repository_equals req (repository_from_api r) ≡ false
unfolding repository_from_api
description_differs req r text n d =
    elim (Bool-cases (repository_equals req (repository_from_api r))) [
      | inl same ↦
          let e =
            ap (λ (x : RepositoryInfo). x.description) ((repository_equals_iff req _).0 same) in
          cc
      | inr differs ↦ differs
    ]

pub description_stays :
    (req : RepositoryInfo) (r : Repository) (text : Str)
    → req.description ≡ none
    → r.description ≡ some text
    → (target req r).description ≡ some text
unfolding patch repository_info_to_api_obj
description_stays req r text n d = ground arith
