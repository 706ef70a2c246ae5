-- ===== src/Errors.antt =====
-- gitprovider/errors.go, the sentinel errors of validation/validation.go, `MultiError` of
-- validation/multierror.go, and what the code uses of the standard package `errors`: an error value
-- is a tree of wrapped errors, `errors.Is` and `errors.As` walk it. A wrapped message is kept as
-- its format and arguments, unrendered.
pub mod Chain
use mathlib.Core.Bool.{decide}
use go_git_providers.Prelude.{ℕ, String, Bool, true, false, ◌||◌, Option, none, some, List, Str}

-- The package-level `errors.New` values: validation.go, errors.go, then those of the package stash
-- (client.go, users.go, repositories.go), and `ErrNotFound` of the package go-gitlab.
pub data Sentinel : Type 0 where
  field_required field_invalid field_enum_invalid : Sentinel
  no_provider_support domain_unsupported not_top_level_organization : Sentinel
  invalid_argument unexpected_event already_exists not_found invalid_server_data : Sentinel
  url_unsupported_scheme url_unsupported_parts url_invalid url_missing_repo_name : Sentinel
  invalid_client_options destructive_call_disallowed invalid_transport_chain_return : Sentinel
  invalid_permission_level missing_header group_not_found : Sentinel
  unexpected_status_code stash_not_found stash_already_exists gitlab_not_found : Sentinel

unfoldable pub Sentinel-discrete : Discrete Sentinel
Sentinel-discrete = hlevel

-- `==` on two sentinels: they are distinct pointers.
unfoldable pub same : Sentinel → Sentinel → Bool
unfolding Sentinel-discrete decide
same a b = decide (Sentinel-discrete a b)

-- The part of `*http.Response` that the code reads.
pub record Response : Type 0 where
  pub status_code : ℕ

pub record HttpError : Type 0 where
  pub response : Response
  pub error_message : Str
  pub message : Str
  pub documentation_url : Str

pub record RateLimitError : Type 0 where
  pub http_error : HttpError
  pub limit : ℕ
  pub remaining : ℕ
  pub reset : ℕ

-- The errors of the package go-github, by the fields that the code reads; `text` is `Error()`.
pub record GithubRateLimitError : Type 0 where
  pub response : Response
  pub text : Str
  pub message : Str
  pub limit : ℕ
  pub remaining : ℕ
  pub reset : ℕ

pub record GithubErrorResponse : Type 0 where
  pub response : Response
  pub text : Str
  pub message : Str
  pub documentation_url : Str
  pub errors : List Str

-- The `ErrorResponse` of the package go-gitlab, in the same way.
pub record GitlabErrorResponse : Type 0 where
  pub response : Response
  pub text : Str
  pub message : Str

mutual
  -- A non-nil `error`. `wrap` is `fmt.Errorf` with a verb `%w`; `collected` is the `Error` of the
  -- package go-multierror, whose `Is` and `As` go through the errors that were appended; `foreign` is any error of another
  -- package, by its text.
  pub data Err : Type 0 where
    sentinel : Sentinel → Err
    wrap : String → List Str → Err → Err
    multi : Errs → Err
    collected : Errs → Err
    http : HttpError → Err
    rate_limit : RateLimitError → Err
    invalid_credentials : HttpError → Err
    incorrect_user : Str → Err
    github_rate_limit : GithubRateLimitError → Err
    github_response : GithubErrorResponse → Err
    gitlab_response : GitlabErrorResponse → Err
    foreign : Str → Err

  pub data Errs : Type 0 where
    nil : Errs
    cons : Err → Errs → Errs

-- What `errors.Is` is called with: a sentinel, or a `*MultiError`.
pub data Target : Type 0 where
  the : Sentinel → Target
  any_multi : Target

-- `target.(*MultiError)`
unfoldable pub is_multi_target : Target → Bool
is_multi_target any_multi = true
is_multi_target (the s) = false

-- `err == target`
unfoldable pub same_target : Sentinel → Target → Bool
same_target s (the t) = same s t
same_target s any_multi = false

unfoldable mutual
  unfolding is_multi_target same_target

  -- `errors.Is`; the case of a `MultiError` is `(*MultiError).Is`
  pub errors_is : Err → Target → Bool
  errors_is (sentinel s) t = same_target s t
  errors_is (wrap f args e) t = errors_is e t
  errors_is (multi es) t = is_multi_target t || errors_is_any es t
  errors_is (collected es) t = errors_is_any es t
  errors_is _ t = false

  -- the loop over `e.Errors`
  pub errors_is_any : Errs → Target → Bool
  errors_is_any nil t = false
  errors_is_any (cons e es) t = errors_is e t || errors_is_any es t

-- `errors.As` at one error of the chain, for the target type `*github.RateLimitError`, and at the
-- target type `*github.ErrorResponse`
unfoldable pub is_github_rate_limit : Err → Option GithubRateLimitError
is_github_rate_limit (github_rate_limit r) = some r
is_github_rate_limit _ = none

unfoldable pub is_github_response : Err → Option GithubErrorResponse
is_github_response (github_response r) = some r
is_github_response _ = none

-- The same for go-gitlab's `*gitlab.ErrorResponse`.
unfoldable pub is_gitlab_response : Err → Option GitlabErrorResponse
is_gitlab_response (gitlab_response r) = some r
is_gitlab_response _ = none

-- The first hit.
abbrev pub or_else {ℓ} : {A : Type ℓ} → Option A → Option A → Option A
or_else none y = y
or_else (some a) y = some a

unfoldable mutual
  -- `errors.As`: the first error of the chain that has the target's type; the case of a
  -- `MultiError` is `(*MultiError).As`
  pub errors_as : {A : Type 0} → (Err → Option A) → Err → Option A
  errors_as is_a (wrap f args e) = or_else (is_a (wrap f args e)) (errors_as is_a e)
  errors_as is_a (multi es) = or_else (is_a (multi es)) (errors_as_any is_a es)
  errors_as is_a (collected es) = or_else (is_a (collected es)) (errors_as_any is_a es)
  errors_as is_a e = is_a e

  pub errors_as_any : {A : Type 0} → (Err → Option A) → Errs → Option A
  errors_as_any is_a nil = none
  errors_as_any is_a (cons e es) = or_else (errors_as is_a e) (errors_as_any is_a es)

-- `NewMultiError(a, b)`
abbrev pub new_multi_error : Err → Err → Err
new_multi_error a b = multi (cons a (cons b nil))

-- `errors.Is(err, s)` for a sentinel
abbrev pub is_error : Err → Sentinel → Bool
is_error e s = errors_is e (the s)
