-- ===== src/Github/Spec/Laws.antt =====
-- What is sent to GitHub to bring a repository to its desired state.
use go_git_providers.Prelude.{◌≡◌, ◌≢◌, refl, ap, false, none, List, [], ◌∷◌, Str, arith, list_beq}
use go_git_providers.Gitprovider.Enums.Known.{is_known}
use go_git_providers.Gitprovider.Info.{RepositoryInfo}
use go_git_providers.Github.Api.{Repository}
use go_git_providers.Github.Spec.{
  Located, keep_other, new_github_repository_spec, update_github_repository,
  update_api_obj_with_repository_info, repository_info_to_api_obj, github_repository_known_fields,
}

-- An object that holds nothing beyond the settable fields.
abbrev pub settable : Repository → Repository
settable r = record r { permissions = none; owner = none; other = [] }

-- None of the names of the remaining fields is a known one.
abbrev pub OnlyOthers : List (Str × Str) → Type 0
OnlyOthers [] = Unit
OnlyOthers ((field, value) ∷ fields) =
    (is_known github_repository_known_fields field ≡ false) × OnlyOthers fields

keep_other-OnlyOthers : (fields : List (Str × Str)) → OnlyOthers fields → keep_other fields ≡ []
unfolding keep_other
keep_other-OnlyOthers [] h = refl
keep_other-OnlyOthers ((field, value) ∷ fields) h = rw (h.0) (keep_other-OnlyOthers fields h.1)

-- The spec of a repository, none of whose remaining fields is named like a known one, is the
-- repository without the fields that no request can set.
pub new_github_repository_spec-settable :
    (r : Repository) → OnlyOthers r.other → new_github_repository_spec r ≡ settable r
unfolding new_github_repository_spec is_known list_beq
new_github_repository_spec-settable r h =
    ap (λ o. record (settable r) { other = o }) (keep_other-OnlyOthers r.other h)

-- An update of two structs that were allocated apart sends every field of the desired one, also
-- those in which the two agree.
pub update_github_repository-apart :
    (desired actual : Located)
    → desired.address ≢ actual.address
    → update_github_repository desired actual ≡ desired.value
unfolding update_github_repository
update_github_repository-apart desired actual h = ground arith

-- A request that is set on a repository is sent over the repository's own settable fields.
pub update_api_obj-settable :
    (info : RepositoryInfo) (r : Repository)
    → OnlyOthers r.other
    → update_api_obj_with_repository_info info r ≡ repository_info_to_api_obj info (settable r)
unfolding update_api_obj_with_repository_info repository_info_to_api_obj
update_api_obj-settable info r h = rw (new_github_repository_spec-settable r h)
