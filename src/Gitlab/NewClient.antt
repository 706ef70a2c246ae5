-- ===== src/Gitlab/NewClient.antt =====
-- gitlab/auth.go and gitlab/client.go: the construction of a client. The functions of go-gitlab that
-- make its client from an HTTP client are parameters.
pub mod Unknown
use go_git_providers.Prelude.{
  ℕ, Bool, Option, none, some, List, [], ◌++◌, Str, codes, ◌==◌, nat_eq, list_eq, is_empty,
  if◌then◌else◌,
}
use go_git_providers.Errors.{Err, sentinel, no_provider_support}
use go_git_providers.Exec.{Result, ok, err, panic, and_then, Attempt, got, failed}
use go_git_providers.Gitprovider.Url.{UrlParser, Url}
use go_git_providers.Gitprovider.ClientOptions.{ClientOptions, ClientOption, make_client_options}
use go_git_providers.Gitprovider.ClientOptions.Chain.{get_transport_chain, is_true}
use go_git_providers.Gitprovider.ClientOptions.Transport.{
  Transports, build_client_from_transport_chain,
}
use go_git_providers.Gitlab.Api.{GoGitlab}
use go_git_providers.Gitlab.Context.{ClientContext}

-- `TokenType`
abbrev pub TokenType : Type 0
TokenType = Str

abbrev pub token_type_oauth2 : TokenType
token_type_oauth2 = codes "oauth2"

abbrev pub token_type_pat : TokenType
token_type_pat = codes "pat"

abbrev pub token_type_basic : TokenType
token_type_basic = codes "basicauth"

abbrev pub default_domain : Str
default_domain = codes "gitlab.com"

-- `gogitlab.NewOAuthClient`, `gogitlab.NewClient` and `gogitlab.NewBasicAuthClient`, with the HTTP
-- client and the base URL, if any
pub record GitlabClients (R W : Type 0) : Type 0 where
  pub new_oauth_client : Str → Option R → Option Str → Result (GoGitlab W)
  pub new_pat_client : Str → Option R → Option Str → Result (GoGitlab W)
  pub new_basic_auth_client : Str → Str → Option R → Option Str → Result (GoGitlab W)

-- The nil `*gitlab.Client`: a call dereferences it.
abbrev pub nil_client : {W : Type 0} → GoGitlab W
nil_client = record {
  groups_get = λ a w. (panic, w);
  groups_list = λ a w. (panic, w);
  groups_list_subgroups = λ a b w. (panic, w);
  groups_list_members = λ a b w. (panic, w);
  groups_list_projects = λ a b w. (panic, w);
  projects_get = λ a w. (panic, w);
  projects_list = λ a w. (panic, w);
  projects_list_users = λ a b w. (panic, w);
  projects_list_user_projects = λ a b w. (panic, w);
  projects_create = λ a w. (panic, w);
  projects_edit = λ a b w. (panic, w);
  projects_delete = λ a w. (panic, w);
  users_current = λ w. (panic, w);
  deploy_keys_list = λ a b w. (panic, w);
  deploy_keys_add = λ a b w. (panic, w);
  deploy_keys_delete = λ a b w. (panic, w);
  deploy_tokens_list = λ a b w. (panic, w);
  deploy_tokens_create = λ a b w. (panic, w);
  deploy_tokens_delete = λ a b w. (panic, w);
  projects_share = λ a b c w. (panic, w);
  projects_unshare = λ a b w. (panic, w);
  commits_list = λ a b w. (panic, w);
  commits_create = λ a b w. (panic, w);
  branches_create = λ a b c w. (panic, w);
  merge_requests_list = λ a w. (panic, w);
  merge_requests_create = λ a b w. (panic, w);
  merge_requests_update = λ a b c w. (panic, w);
  merge_requests_get = λ a b w. (panic, w);
  merge_requests_accept = λ a b c w. (panic, w);
  repositories_list_tree = λ a b w. (panic, w);
  files_get = λ a b c w. (panic, w);
}

-- The two branches that each kind of token has: the client and the domain.
unfoldable pub for_domain :
    {W : Type 0} → (Option Str → Result (GoGitlab W)) → Option Str → Result (GoGitlab W × Str)
for_domain make none = and_then (make none) (λ gl. ok (gl, default_domain))
for_domain make (some d) =
    let own = and_then (make (some (codes "https://" ++ d))) (λ gl. ok (gl, d)) in
    let default = and_then (make none) (λ gl. ok (gl, default_domain)) in
    if d == default_domain then default else own

module _ {R W : Type 0} (g : GitlabClients R W) where
  -- The chain of `if`s over the kind of token: of another kind, neither variable is set.
  unfoldable pub choose_client :
      Str → Str → Str → TokenType → Option Str → Option R → Result (GoGitlab W × Str)
  unfolding for_domain
  choose_client username password token token_type domain http_client =
      if token_type == token_type_oauth2
      then for_domain (g.new_oauth_client token http_client) domain
      else if token_type == token_type_pat
      then for_domain (g.new_pat_client token http_client) domain
      else if token_type == token_type_basic
      then for_domain (g.new_basic_auth_client username password http_client) domain
      else ok (nil_client, [])

module _ {R L W : Type 0} (t : Transports R) (g : GitlabClients R W) (to_lower : Str → Str)
    (error_text : Err → Str) where
  -- `NewClient` of complete options, with `newClient`. `sshDomain` is never set.
  unfoldable pub from_options :
      UrlParser → ℕ → Str → Str → Str → TokenType → ClientOptions R L → Result (ClientContext W)
  unfolding choose_client is_true
  from_options parse fuel username password token token_type opts =
      and_then (build_client_from_transport_chain (get_transport_chain t opts)) λ http_client.
        and_then (choose_client g username password token token_type opts.domain http_client) λ p.
          ok (record {
            api = p.0;
            domain = p.1;
            ssh_domain = [];
            destructive_actions = is_true opts.enable_destructive_api_calls;
            parse = parse;
            to_lower = to_lower;
            error_text = error_text;
            fuel = fuel;
          })

  -- `NewClient`
  unfoldable pub new_client :
      UrlParser
      → ℕ
      → Str
      → Str
      → Str
      → TokenType
      → List (ClientOption R L)
      → Result (ClientContext W)
  unfolding from_options
  new_client parse fuel username password token token_type opt_fns =
      and_then (make_client_options opt_fns)
        (λ opts. from_options parse fuel username password token token_type opts)

module _ {W : Type 0} (c : ClientContext W) where
  -- `(*Client).SupportedDomain`; the URL is nil where it does not parse.
  unfoldable pub supported_domain : Result Str
  supported_domain = elim (c.parse c.domain) [
    | failed e ↦ panic
    | got u ↦ ok (if is_empty u.scheme then codes "https://" ++ c.domain else c.domain)
  ]

  -- `(*Client).HasTokenPermission`
  unfoldable pub has_token_permission : Result Bool
  has_token_permission = err (sentinel no_provider_support)
