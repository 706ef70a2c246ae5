-- ===== src/Gitprovider/Info/Defaulting.antt =====
-- `ValidateAndDefaultInfo`: what comes back is valid, complete and stable.
use go_git_providers.Prelude.{◌≡◌, refl, Option, none, some, Str, arith, subst, list_beq}
use go_git_providers.Errors.{or_else}
use go_git_providers.Exec.{ok}
use go_git_providers.Gitprovider.Enums.Known.{KnownIfSet, is_known}
use go_git_providers.Gitprovider.Enums.Visibility.{known_repository_visibility_values}
use go_git_providers.Gitprovider.Enums.Permission.{known_repository_permission_values}
use go_git_providers.Gitprovider.Info.Laws.{
  repository_validate_info_iff, team_access_validate_info_iff,
}
use go_git_providers.Gitprovider.Info.{
  DefaultedInfoRequest, validate_and_default_info, RepositoryInfo, repository_info,
  repository_default, repository_validate_info, team_access_info, team_access_default,
  default_repo_permission, default_repository_visibility, default_branch_name, deploy_key_info,
  deploy_key_default, deploy_key_validate_info,
}

-- What a type of requests promises, for `ValidateAndDefaultInfo` to be repeatable.
pub record DefaultedInfoLaws {I : Type 0} (r : DefaultedInfoRequest I) : Type 0 where
  pub default_idem : (x : I) → r.default (r.default x) ≡ r.default x
  pub default_valid : (x : I) → r.validate_info x ≡ none → r.validate_info (r.default x) ≡ none

-- The request is refused with its validation error, or else comes back with its defaults.
pub validate_and_default_info_ok :
    {I : Type 0} ⦃r : DefaultedInfoRequest I⦄ (x y : I)
    → validate_and_default_info x ≡ ok y
    → (r.validate_info x ≡ none) × (r.default x ≡ y)
unfolding validate_and_default_info
validate_and_default_info_ok ⦃r⦄ x y h = ground arith

-- A request that passed once passes again, unchanged.
pub validate_and_default_info_idem :
    {I : Type 0} ⦃r : DefaultedInfoRequest I⦄ (laws : DefaultedInfoLaws r) (x y : I)
    → validate_and_default_info x ≡ ok y
    → validate_and_default_info y ≡ ok y
unfolding validate_and_default_info
validate_and_default_info_idem ⦃r⦄ laws x y h =
    let p = validate_and_default_info_ok x y h in
    ground (arith, p, laws.default_idem x, laws.default_valid x)

visibility_default :
    (v : Option Str)
    → KnownIfSet known_repository_visibility_values v
    → KnownIfSet known_repository_visibility_values (or_else v (some default_repository_visibility))
unfolding is_known list_beq
visibility_default none h = refl
visibility_default (some v) h = h

permission_default :
    (p : Option Str)
    → KnownIfSet known_repository_permission_values p
    → KnownIfSet known_repository_permission_values (or_else p (some default_repo_permission))
unfolding is_known list_beq
permission_default none h = refl
permission_default (some v) h = h

pub repository_laws : DefaultedInfoLaws repository_info
unfolding repository_default
repository_laws = record {
  default_idem = λ x. ground arith;
  default_valid = λ x h.
      (repository_validate_info_iff (repository_default x)).1
        (visibility_default x.visibility ((repository_validate_info_iff x).0 h));
}

-- A repository request that was accepted comes back valid, with the values that were set, the
-- defaults `private` and `main` where the visibility or the branch was not, and is accepted again
-- unchanged.
pub repository_defaulted :
    (info out : RepositoryInfo)
    → validate_and_default_info info ≡ ok out
    → (out.description ≡ info.description)
      × (out.visibility ≡ or_else info.visibility (some default_repository_visibility))
      × (out.default_branch ≡ or_else info.default_branch (some default_branch_name))
      × (repository_validate_info out ≡ none)
      × (validate_and_default_info out ≡ ok out)
unfolding repository_default
repository_defaulted info out h =
    let p = validate_and_default_info_ok info out h in
    (
      ground (arith, p),
      ground (arith, p),
      ground (arith, p),
      subst (λ y. repository_validate_info y ≡ none) p.1 (repository_laws.default_valid info p.0),
      validate_and_default_info_idem repository_laws info out h,
    )

pub team_access_laws : DefaultedInfoLaws team_access_info
unfolding team_access_default
team_access_laws = record {
  default_idem = λ x. ground arith;
  default_valid = λ x h.
      let q = (team_access_validate_info_iff x).0 h in
      (team_access_validate_info_iff (team_access_default x)).1
        (q.0, permission_default x.permission q.1);
}

pub deploy_key_laws : DefaultedInfoLaws deploy_key_info
unfolding deploy_key_default deploy_key_validate_info
deploy_key_laws = record { default_idem = λ x. ground arith; default_valid = λ x h. h }
