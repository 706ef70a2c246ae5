-- ===== src/Stash/Repositories/Settle.antt =====
-- stash/client_repositories_org.go and stash/client_repositories_user.go: what `Get` and
-- `reconcileRepository` do in the cases that decide how a reconciliation goes on.
use go_git_providers.Prelude.{
  ◌≡◌, Bool, false, ◌&&◌, none, some, [], ◌∷◌, Str, arith, ◌==◌, ==_refl, nat_eq, list_eq, bool_eq,
  option_eq, option_beq,
}
use go_git_providers.Errors.{errors_is, same, sentinel, not_found, stash_not_found}
use go_git_providers.Exec.{err, panic, attempt, pure, ◌>>=◌}
use go_git_providers.Gitprovider.Info.{RepositoryInfo, repository_equals, repository_validate_info}
use go_git_providers.Gitprovider.Refs.{OrgRepositoryRef}
use go_git_providers.Stash.Http.{HttpResponse, get_method}
use go_git_providers.Stash.Http.Replies.{Answered}
use go_git_providers.Stash.Types.{no_repository}
use go_git_providers.Stash.Services.{on_error, not_found_guard}
use go_git_providers.Stash.Services.Replies.{fetch-not_found}
use go_git_providers.Stash.Services.Repositories
use go_git_providers.Stash.Services.Repositories.{repositories_path}
use go_git_providers.Stash.Context.{StashContext, validate_org_repository_ref, project_refs}
use go_git_providers.Stash.Repository.{
  UserRepository, get, update, repository_from_api, repository_info_to_api_obj,
}
use go_git_providers.Stash.Repository.Public.{set-valid}
use go_git_providers.Stash.Repositories.{
  get_repository, get_failed, org_get, slug_or_name, reconcile_repository, apply_set, branch_to_set,
  updated_outcome,
}

and_false : (a b c : Bool) → b ≡ false → a && b && c ≡ false
and_false a b c h = ground arith

no_branch-differs :
    (req : RepositoryInfo) (u : UserRepository)
    → req.default_branch ≡ none
    → repository_equals req (get u) ≡ false
unfolding repository_equals get repository_from_api option_beq
no_branch-differs req u h =
    and_false _ (req.default_branch == some u.repository.default_branch) _ (rw h)

module _ {W : Type 0} (c : StashContext W) where
  -- A valid request without a default branch: `reconcileRepository` panics before anything is sent,
  -- whatever the repository is.
  pub reconcile_repository-panic :
      (u : UserRepository) (req : RepositoryInfo) (w : W)
      → repository_validate_info req ≡ none
      → req.default_branch ≡ none
      → reconcile_repository c u req w ≡ (panic, w)
  unfolding reconcile_repository apply_set
  reconcile_repository-panic u req w h k = rw (no_branch-differs req u k, set-valid req u h, k)

  -- A valid request with a default branch, which differs from the repository: `reconcileRepository`
  -- sends the changed object, and never asks the server for the default branch.
  pub reconcile_repository-update :
      (u : UserRepository) (req : RepositoryInfo) (branch : Str) (w : W)
      → repository_validate_info req ≡ none
      → req.default_branch ≡ some branch
      → repository_equals req (get u) ≡ false
      → let u' = record u { repository = repository_info_to_api_obj req u.repository } in
        reconcile_repository c u req w
        ≡ (attempt (update c (project_refs u.ref).0 (project_refs u.ref).1 u'.repository [])
              >>= λ a. pure (updated_outcome u' a))
            w
  unfolding reconcile_repository apply_set branch_to_set repository_info_to_api_obj
  reconcile_repository-update u req branch w h k d =
      rw (d, set-valid req u h, k) (ground (arith, ==_refl branch))

  get-missing :
      (key slug : Str) (w v : W) (resp : HttpResponse)
      → Answered c.client get_method (repositories_path key (slug ∷ [])) [] w resp v
      → resp.status_code ≡ 404
      → Repositories.get c.client c.json key slug w ≡ (err (sentinel stash_not_found), v)
  unfolding Repositories.get not_found_guard
  get-missing key slug w v resp a s =
      fetch-not_found c.client _ c.json.repository no_repository not_found_guard
        Repositories.set_session get_method (repositories_path key (slug ∷ [])) [] a s (rw s)

  -- A repository that the server does not have: `(*OrgRepositoriesClient).Get` of a valid reference
  -- returns `gitprovider.ErrNotFound` when the request for it is answered with 404.
  pub org_get-not_found :
      (ref : OrgRepositoryRef) (w v : W) (resp : HttpResponse)
      → validate_org_repository_ref c.parse ref c.host ≡ none
      → Answered c.client get_method
          (repositories_path ref.organization_ref.key
            (slug_or_name ref.slug ref.repository_name ∷ []))
          []
          w
          resp
          v
      → resp.status_code ≡ 404
      → org_get c ref w ≡ (err (sentinel not_found), v)
  unfolding org_get get_repository on_error get_failed errors_is same
  org_get-not_found ref w v resp h a s = rw (
    h,
    get-missing ref.organization_ref.key (slug_or_name ref.slug ref.repository_name) w v resp a s,
  )
