-- ===== src/Tests/Options.antt =====
-- Client options, requests, validators and errors at concrete values.
use go_git_providers.Prelude.{
  ℕ, ◌≡◌, refl, ◌↔◌, true, Option, none, some, List, [], ◌∷◌, map, codes, list_beq,
}
use go_git_providers.Errors.{
  Err, sentinel, wrap, is_error, not_found, field_required, field_invalid, or_else,
}
use go_git_providers.Errors.Chain.{Holds, is_error-iff-Holds}
use go_git_providers.Exec.{ok}
use go_git_providers.Validation.{new, error}
use go_git_providers.Validation.Report.{
  Entry, append_all, any_is, holds_sentinel, is_error-append_all,
}
use go_git_providers.Gitprovider.Enums.Visibility
use go_git_providers.Gitprovider.Enums.Known.{is_known}
use go_git_providers.Gitprovider.Enums.Visibility.{
  known_repository_visibility_values, validate_repository_visibility,
}
use go_git_providers.Gitprovider.Info.{
  RepositoryInfo, repository_info, repository_equals, repository_validate_info, repository_default,
  validate_and_default_info, append_if_set, default_repository_visibility, default_branch_name,
  team_access_info,
}
use go_git_providers.Gitprovider.Info.Laws.{repository_equals_iff}
use go_git_providers.Gitprovider.Info.Defaulting.{repository_defaulted}
use go_git_providers.Gitprovider.Options.{
  RepositoryCreateOptions, make_repository_create_options, apply_to_repository_create_options,
}
use go_git_providers.Gitprovider.Options.Laws.{make_repository_create_options_fields}
use go_git_providers.Gitprovider.ClientOptions.Transport.{
  Transports, build_client_from_transport_chain,
}
use go_git_providers.Gitprovider.ClientOptions.{
  ClientOptions, ClientOption, no_options, apply_to_client_options, make_client_options,
  with_domain, with_oauth2_token,
}
use go_git_providers.Gitprovider.ClientOptions.Once.{AllOnce, make_client_options_iff}
use go_git_providers.Gitprovider.ClientOptions.Chain.{
  total, get_transport_chain, is_true, build-get_transport_chain,
}
use go_git_providers.Gitprovider.ClientOptions.Failures.{
  IsSafe, domain, token, make_client_options-IsSafe,
}

-- A transport is the list of the marks that a request collects.
abbrev marked : ℕ → Option (List ℕ) → List ℕ
marked n none = n ∷ []
marked n (some ns) = n ∷ ns

abbrev pub transports : Transports (List ℕ)
transports = record { oauth2 = λ t. marked 1; http_cache = marked 2; custom_ca = λ b. 3 ∷ [] }

abbrev chained : ClientOptions (List ℕ) ℕ
chained = record no_options {
  auth_transport = some (total (marked 1));
  enable_conditional_requests = some true;
}

build-get_transport_chain_example :
    build_client_from_transport_chain (get_transport_chain transports chained)
    ≡ ok (some (2 ∷ 1 ∷ []))
unfolding is_true
build-get_transport_chain_example =
    build-get_transport_chain transports chained none (some (marked 1)) none refl refl refl

abbrev two_options : List (ClientOptions (List ℕ) ℕ)
two_options = chained ∷ chained ∷ []

make_client_options_iff_example :
    (make_client_options (map apply_to_client_options two_options) ≡ ok chained)
    ↔ AllOnce no_options two_options chained
make_client_options_iff_example = make_client_options_iff two_options chained

abbrev twice : List (ClientOption (List ℕ) ℕ)
twice = with_domain (codes "a") ∷ with_oauth2_token transports [] ∷ []

make_client_options-IsSafe_example : IsSafe (make_client_options twice)
make_client_options-IsSafe_example =
    make_client_options-IsSafe transports twice (domain (codes "a"), (token [], tt))

abbrev pub request : RepositoryInfo
request = record {
  description = some (codes "new");
  default_branch = none;
  visibility = some Visibility.public;
}

abbrev pub request' : RepositoryInfo
request' = record request { default_branch = some (codes "main") }

pub request-accepted : validate_and_default_info request ≡ ok request'
unfolding validate_and_default_info repository_validate_info repository_default append_if_set
    validate_repository_visibility error new is_known list_beq
request-accepted = refl

repository_defaulted_example :
    (request'.description ≡ request.description)
    × (request'.visibility ≡ or_else request.visibility (some default_repository_visibility))
    × (request'.default_branch ≡ or_else request.default_branch (some default_branch_name))
    × (repository_validate_info request' ≡ none)
    × (validate_and_default_info request' ≡ ok request')
repository_defaulted_example = repository_defaulted request request' request-accepted

repository_equals_iff_example : (repository_equals request request' ≡ true) ↔ (request ≡ request')
repository_equals_iff_example = repository_equals_iff request request'

abbrev mit : RepositoryCreateOptions
mit = record { auto_init = some true; license_template = some (codes "mit") }

abbrev apache : RepositoryCreateOptions
apache = record { auto_init = none; license_template = some (codes "apache-2.0") }

make_repository_create_options_fields_example :
    ((make_repository_create_options
        (map apply_to_repository_create_options (mit ∷ apache ∷ []))).0.auto_init
      ≡ some true)
    × ((make_repository_create_options
          (map apply_to_repository_create_options (mit ∷ apache ∷ []))).0.license_template
        ≡ some (codes "apache-2.0"))
make_repository_create_options_fields_example =
    make_repository_create_options_fields (mit ∷ apache ∷ [])

abbrev entries : List Entry
entries =
    (some (sentinel field_required), none, codes "Name" ∷ [])
    ∷ (none, none, [])
    ∷ (some (sentinel field_invalid), some (codes "x"), codes "Kind" ∷ [])
    ∷ []

is_error-append_all_example :
    holds_sentinel (error (append_all (new (codes "T")) entries)) field_invalid
    ≡ any_is entries field_invalid
is_error-append_all_example = is_error-append_all (codes "T") entries field_invalid

abbrev wrapped_missing : Err
wrapped_missing = wrap "%w" [] (sentinel not_found)

is_error-iff-Holds_example :
    (is_error wrapped_missing not_found ≡ true) ↔ Holds not_found wrapped_missing
is_error-iff-Holds_example = is_error-iff-Holds wrapped_missing not_found
