-- ===== src/Gitlab/Util/HttpErrors.antt =====
-- `handleHTTPError`: which sentinel an error of go-gitlab answers to.
use go_git_providers.Prelude.{◌≡◌, refl, true, false, nat_eq}
use go_git_providers.Errors.{
  Err, sentinel, gitlab_not_found, not_found, gitlab_response, GitlabErrorResponse, errors_is,
  errors_as, is_error, same, is_gitlab_response,
}
use go_git_providers.Gitlab.Util.{handle_http_error, classify}

-- The two errors of go-gitlab for what is missing: `gitlab.ErrNotFound`, which it returns for a
-- reply 404, and a `*gitlab.ErrorResponse` with that status code.
pub data IsMissing : Err → Type 0 where
  no_page : IsMissing (sentinel gitlab_not_found)
  refused : (r : GitlabErrorResponse) → r.response.status_code ≡ 404 → IsMissing (gitlab_response r)

-- Such an error answers to `ErrNotFound` behind `handleHTTPError`, and does not answer to it before.
pub missing-handled :
    {e : Err}
    → IsMissing e
    → (is_error (handle_http_error e) not_found ≡ true) × (is_error e not_found ≡ false)
unfolding handle_http_error errors_is errors_as is_gitlab_response classify same
missing-handled no_page = (refl, refl)
missing-handled (refused r h) = (rw h refl, refl)
