-- ===== src/Stash/Repository/Public.antt =====
-- stash/resource_repository.go: what `Set` keeps of a request.
use go_git_providers.Prelude.{
  ◌≡◌, ◌↔◌, ap, Option, none, some, Str, codes, arith, ◌==◌, ==_iff, nat_eq, list_eq, list_beq,
  if◌then◌else◌,
}
use go_git_providers.Gitprovider.Enums.Visibility
use go_git_providers.Gitprovider.Info.{RepositoryInfo, repository_validate_info}
use go_git_providers.Stash.Repository.{
  UserRepository, repository_from_api, repository_info_to_api_obj, public_of, get, set,
}

-- A request with every field.
abbrev pub full : Str → Str → Str → RepositoryInfo
full description branch visibility = record {
  description = some description;
  default_branch = some branch;
  visibility = some visibility;
}

-- `Set` with a valid request does not report an error, and the object then has the API object that
-- the request was written to.
pub set-valid :
    (info : RepositoryInfo) (u : UserRepository)
    → repository_validate_info info ≡ none
    → set info u ≡ (record u { repository = repository_info_to_api_obj info u.repository }, none)
unfolding set
set-valid info u h = rw (set, h)

visibility_of : (v : Str) → Option Str
visibility_of v = some (if v == codes "true" then Visibility.public else Visibility.private)

kept : (v : Str) → (visibility_of v ≡ some v) ↔ (v ≡ Visibility.private)
unfolding visibility_of list_beq
kept v = (λ h. ground (arith, ==_iff v (codes "true")), λ h. rw h)

-- `Get` behind `Set` with a valid request in which every field is set: the request comes back exactly
-- when its visibility is `private`. Neither `public` nor `internal` can be asked for.
pub get-set_iff :
    (d b v : Str) (u : UserRepository)
    → repository_validate_info (full d b v) ≡ none
    → (get (set (full d b v) u).0 ≡ full d b v) ↔ (v ≡ Visibility.private)
unfolding get repository_from_api repository_info_to_api_obj public_of visibility_of
get-set_iff d b v u h = rw (set-valid (full d b v) u h) (
  λ e. (kept v).0 (ap (λ r. r.visibility) e),
  λ e.
      ap (λ o. record { description = some d; default_branch = some b; visibility = o })
        ((kept v).1 e),
)
