-- ===== src/Github/Util/HttpErrors.antt =====
-- `handleHTTPError`: which sentinel an error of go-github answers to.
use go_git_providers.Prelude.{
  ◌≡◌, refl, Bool, true, false, ◌||◌, ◌↔◌, Option, none, some, arith, nat_eq,
}
use go_git_providers.Errors.{
  Err, Sentinel, not_found, GithubErrorResponse, GithubRateLimitError, errors_is, errors_as,
  is_error, same, is_github_rate_limit, is_github_response,
}
use go_git_providers.Github.Util.{handle_http_error, classify}

or_left : (a b : Bool) → a ≡ true → a || b ≡ true
or_left a b h = ground arith

classify-keeps :
    (e : Err) (s : Sentinel) (l : Option GithubRateLimitError) (r : Option GithubErrorResponse)
    → is_error e s ≡ true
    → is_error (classify e l r) s ≡ true
unfolding classify errors_is
classify-keeps e s (some l) r h = or_left _ _ h
classify-keeps e s none none h = h
classify-keeps e s none (some r) h = ground arith

-- The error that is returned still answers to whatever the original error answers to.
pub handle_http_error-keeps :
    (e : Err) (s : Sentinel) → is_error e s ≡ true → is_error (handle_http_error e) s ≡ true
unfolding handle_http_error
handle_http_error-keeps e s h =
    classify-keeps e s (errors_as is_github_rate_limit e) (errors_as is_github_response e) h

-- No rate limit was hit, and the response has the status code 404.
pub record IsMissing (e : Err) : Type 0 where
  pub no_limit : errors_as is_github_rate_limit e ≡ none
  pub response : GithubErrorResponse
  pub found : errors_as is_github_response e ≡ some response
  pub status : response.response.status_code ≡ 404

missing→ :
    (e : Err) (l : Option GithubRateLimitError) (r : Option GithubErrorResponse)
    → is_error e not_found ≡ false
    → is_error (classify e l r) not_found ≡ true
    → (l ≡ none) × (x : GithubErrorResponse) × (r ≡ some x) × (x.response.status_code ≡ 404)
unfolding classify errors_is same
missing→ e (some l) r k h = ground arith
missing→ e none none k h = cc
missing→ e none (some r) k h = (refl, r, refl, ground arith)

→missing :
    (e : Err) (l : Option GithubRateLimitError) (x : GithubErrorResponse)
    → l ≡ none
    → x.response.status_code ≡ 404
    → is_error (classify e l (some x)) not_found ≡ true
unfolding classify errors_is same
→missing e none x p q = ground arith
→missing e (some l) x p q = cc

-- An error that did not answer to `ErrNotFound` does so afterwards exactly when the server answered
-- 404, and not with a rate limit.
pub handle_http_error-not_found :
    (e : Err)
    → is_error e not_found ≡ false
    → (is_error (handle_http_error e) not_found ≡ true) ↔ IsMissing e
unfolding handle_http_error
handle_http_error-not_found e k = (
  λ h.
      let (a, x, b, c) =
        missing→ e (errors_as is_github_rate_limit e) (errors_as is_github_response e) k h in
      record { no_limit = a; response = x; found = b; status = c },
  λ m. rw (m.found) (→missing e (errors_as is_github_rate_limit e) m.response m.no_limit m.status),
)
