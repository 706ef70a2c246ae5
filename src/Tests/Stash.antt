-- ===== src/Tests/Stash.antt =====
-- The Stash client at concrete replies of a server.
use go_git_providers.Prelude.{
  ℕ, ◌≡◌, ◌↔◌, ◌⊎◌, ◌≤◌, refl, false, inl, none, some, [], ◌∷◌, codes, list_beq, nat_eq, list_eq,
  leb,
}
use go_git_providers.Errors.{sentinel, wrap, foreign, stash_not_found}
use go_git_providers.Exec.{ok, err, panic, out_of_fuel, Exec, pure}
use go_git_providers.Strings.{split}
use go_git_providers.Gitprovider.Enums.Permission
use go_git_providers.Gitprovider.Enums.Visibility
use go_git_providers.Gitprovider.Enums.Visibility.{validate_repository_visibility}
use go_git_providers.Gitprovider.Enums.Known.{is_known}
use go_git_providers.Gitprovider.Info.{
  RepositoryInfo, TeamAccessInfo, team_access_info, repository_validate_info, append_if_set,
  validate_and_default_info, team_access_validate_info, team_access_default, require,
}
use go_git_providers.Gitprovider.Enums.Permission.{validate_repository_permission}
use go_git_providers.Gitprovider.Refs.{OrgRepositoryRef}
use go_git_providers.Validation.{new, error}
use go_git_providers.Stash.Repository.{UserRepository, get, set}
use go_git_providers.Stash.Repository.Public.{full, get-set_iff}
use go_git_providers.Stash.Repositories.{reconcile_repository}
use go_git_providers.Stash.Repositories.Settle.{reconcile_repository-panic}
use go_git_providers.Stash.Services.Permissions
use go_git_providers.Stash.Services.Projects
use go_git_providers.Stash.TeamAccess
use go_git_providers.Stash.TeamAccess.{
  get_stash_permission, access_of, get_stash_permission_from_map, find_stash_permission,
  stash_permission_at,
}
use go_git_providers.Stash.TeamAccess.Priority.{
  IsAbove, Reached, get_stash_permission_from_map-greatest, get_stash_permission-access_of,
}
use go_git_providers.Stash.TeamAccess.Reconcile.{reconcile-no_group}
use go_git_providers.Stash.DeployKey
use go_git_providers.Stash.DeployKey.Delete.{delete_object-zero}
use go_git_providers.Stash.Services.{on_error}
use go_git_providers.Stash.Services.DeployKeys
use go_git_providers.Stash.Context.{project_refs, get_stash_refs}
use go_git_providers.Stash.Commits.{commit_create, repository_and_user}
use go_git_providers.Stash.Commits.Dropped.{commit_create-dropped}
use go_git_providers.Tests.Urls.{flux}
use go_git_providers.Github.Repository.{Ref, org}
use go_git_providers.Stash.Http.{delete_method, get_method, with_query}
use go_git_providers.Stash.Types.{
  Page, PagingOptions, empty_page, no_paging, no_repository, no_user, no_deploy_key,
}
use go_git_providers.Stash.Paging.{all_pages, first_page, add_paging}
use go_git_providers.Stash.Paging.Complete.{Pages, all_pages-iff-Pages}
use go_git_providers.Stash.Services.Repositories
use go_git_providers.Stash.Services.Repositories.{repositories_path}
use go_git_providers.Stash.Services.Replies.{delete_iff, all-never}
use go_git_providers.Tests.Rest.{reply, server, codecs, context, answered}

-- Two pages of one number each.
abbrev two_pages : PagingOptions → Exec Unit (Page ℕ)
two_pages opts = pure (record {
  paging = record no_paging { is_last_page = leb 1 opts.start; next_page_start = 1 };
  about = [];
  values = opts.start ∷ [];
})

all_pages-iff-Pages_example :
    (all_pages two_pages 3 first_page [] tt ≡ (ok (0 ∷ 1 ∷ []), tt))
    ↔ ((n : ℕ) × (n ≤ 3) × Pages two_pages n first_page tt (0 ∷ 1 ∷ []) tt)
all_pages-iff-Pages_example = all_pages-iff-Pages two_pages 3 first_page tt tt (0 ∷ 1 ∷ [])

delete_iff_example :
    (Repositories.delete (server (reply 404)) codecs (codes "PRJ") (codes "repo") tt ≡ (ok tt, tt))
    ↔ (((reply 404).status_code ≡ 200)
        ⊎ ((reply 404).status_code ≡ 202)
        ⊎ ((reply 404).status_code ≡ 204)
        ⊎ ((reply 404).status_code ≡ 400)
        ⊎ ((reply 404).status_code ≡ 404))
delete_iff_example =
    delete_iff (server (reply 404)) codecs (codes "PRJ") (codes "repo") tt tt (reply 404)
      (codes "{}")
      (answered (reply 404) delete_method (repositories_path (codes "PRJ") (codes "repo" ∷ [])) [])
      refl

all-never_example :
    (Repositories.all (server (reply 400)) codecs 7 (codes "PRJ") tt).0 ≡ out_of_fuel
all-never_example =
    all-never (server (reply 400)) codecs (codes "PRJ") (reply 400) (codes "{}") empty_page
      (λ opts w. (
        tt,
        answered (reply 400) get_method (repositories_path (codes "PRJ") [])
            (with_query (add_paging [] (some opts)) ∷ []),
      ))
      refl refl refl refl 7 tt

abbrev pub podinfo_ref : OrgRepositoryRef
podinfo_ref = record { organization_ref = flux; repository_name = codes "podinfo"; slug = [] }

abbrev pub at_podinfo : Ref
at_podinfo = org podinfo_ref

abbrev stored : UserRepository
stored = record { repository = no_repository; ref = at_podinfo }

abbrev nothing_asked : RepositoryInfo
nothing_asked = record { description = none; default_branch = none; visibility = none }

reconcile_repository-panic_example :
    reconcile_repository (context (reply 200)) stored nothing_asked tt ≡ (panic, tt)
unfolding repository_validate_info append_if_set new error
reconcile_repository-panic_example =
    reconcile_repository-panic (context (reply 200)) stored nothing_asked tt refl refl

get-set_iff_example :
    (get (set (full [] (codes "main") Visibility.public) stored).0
      ≡ full [] (codes "main") Visibility.public)
    ↔ (Visibility.public ≡ Visibility.private)
unfolding repository_validate_info append_if_set new error validate_repository_visibility is_known
    list_beq
get-set_iff_example = get-set_iff [] (codes "main") Visibility.public stored refl

get_stash_permission_from_map-greatest_example :
    let n = get_stash_permission_from_map (codes "REPO_READ" ∷ codes "REPO_ADMIN" ∷ []) 0 in
    IsAbove n (codes "REPO_READ" ∷ codes "REPO_ADMIN" ∷ [])
    × ((n ≡ 0) ⊎ Reached n (codes "REPO_READ" ∷ codes "REPO_ADMIN" ∷ []))
get_stash_permission_from_map-greatest_example =
    get_stash_permission_from_map-greatest (codes "REPO_READ" ∷ codes "REPO_ADMIN" ∷ [])

get_stash_permission-access_of_example :
    (access_of (codes "devs") (codes "REPO_WRITE" ∷ [])
      ≡ ok (record { name = codes "devs"; permission = some Permission.push }))
    × ((Permission.push ≡ Permission.pull)
        ⊎ (Permission.push ≡ Permission.push)
        ⊎ (Permission.push ≡ Permission.admin))
unfolding get_stash_permission find_stash_permission stash_permission_at list_beq
get_stash_permission-access_of_example =
    get_stash_permission-access_of Permission.push (codes "REPO_WRITE") (codes "devs") refl

commit_create-dropped_example :
    commit_create (context (reply 200)) at_podinfo (codes "main") [] [] tt
    ≡ (err (wrap "failed to create commit: %w" [] (foreign (codes "commit must be provided"))), tt)
unfolding repository_and_user
commit_create-dropped_example =
    commit_create-dropped (context (reply 200)) at_podinfo (codes "main") [] [] no_repository
      no_user (record { repository = 1; dir = codes "/tmp/repo-1" }) tt tt tt (inl refl) refl refl

abbrev devs_may_pull : TeamAccessInfo
devs_may_pull = record { name = codes "devs"; permission = some Permission.pull }

reconcile-no_group_example :
    TeamAccess.reconcile (context (reply 404)) at_podinfo devs_may_pull tt
    ≡ (ok (none, false, some (sentinel stash_not_found)), tt)
unfolding validate_and_default_info team_access_validate_info team_access_default
    Permissions.get_repository_group_permission Projects.get_project_group_permission get_stash_refs
    new error append_if_set require validate_repository_permission is_known list_beq
reconcile-no_group_example =
    reconcile-no_group (context (reply 404)) at_podinfo devs_may_pull devs_may_pull tt tt tt refl
      refl refl

delete_object-zero_example :
    DeployKey.delete_object
      (context (reply 204))
      at_podinfo
      (record no_deploy_key { id = 17; label = codes "ci"; text = codes "ssh-rsa AAAA ci" })
      tt
    ≡ on_error
        (wrap "failed to delete deploy key %q: %w" (codes "ci" ∷ []))
        (DeployKeys.delete (server (reply 204)) codecs [] [] 0)
        tt
unfolding split project_refs
delete_object-zero_example =
    delete_object-zero (context (reply 204)) at_podinfo
      (record no_deploy_key { id = 17; label = codes "ci"; text = codes "ssh-rsa AAAA ci" })
      (codes "ssh-rsa") (codes "AAAA") (codes "ci" ∷ []) tt refl refl
