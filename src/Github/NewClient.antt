-- ===== src/Github/NewClient.antt =====
-- github/auth.go and `newClient` of github/client.go: the construction of a client. The functions of
-- go-github that make its client from an HTTP client are parameters.
pub mod Destructive
use go_git_providers.Prelude.{
  ℕ, Bool, true, Option, none, some, List, ◌++◌, Str, codes, ◌==◌, nat_eq, list_eq, if◌then◌else◌,
}
use go_git_providers.Exec.{Result, ok, and_then}
use go_git_providers.Gitprovider.Url.{UrlParser}
use go_git_providers.Gitprovider.ClientOptions.{ClientOptions, ClientOption, make_client_options}
use go_git_providers.Gitprovider.ClientOptions.Chain.{get_transport_chain, is_true}
use go_git_providers.Gitprovider.ClientOptions.Transport.{
  Transports, build_client_from_transport_chain,
}
use go_git_providers.Github.Api.{GoGithub}
use go_git_providers.Github.Context.{ClientContext}

-- `github.NewClient`, `github.NewEnterpriseClient`
pub record GithubClients (R W : Type 0) : Type 0 where
  pub new_github_client : Option R → GoGithub W
  pub new_enterprise_client : Str → Str → Option R → Result (GoGithub W)

abbrev pub default_domain : Str
default_domain = codes "github.com"

module _ {R W : Type 0} (g : GithubClients R W) where
  -- The client of go-github and the domain.
  unfoldable pub choose_client : Option Str → Option R → Result (GoGithub W × Str)
  choose_client none http_client = ok (g.new_github_client http_client, default_domain)
  choose_client (some d) http_client =
      let enterprise =
        and_then
          (g.new_enterprise_client (codes "https://" ++ (d ++ codes "/api/v3/"))
            (codes "https://" ++ (d ++ codes "/api/uploads/")) http_client)
          (λ gh. ok (gh, d)) in
      if d == default_domain
      then ok (g.new_github_client http_client, default_domain)
      else enterprise

module _ {R L W : Type 0} (t : Transports R) (g : GithubClients R W) where
  -- `NewClient` of complete options. The parser and the number of pages are the model's.
  unfoldable pub from_options : UrlParser → ℕ → ClientOptions R L → Result (ClientContext W)
  unfolding choose_client is_true
  from_options parse fuel opts =
      and_then (build_client_from_transport_chain (get_transport_chain t opts)) λ http_client.
        and_then (choose_client g opts.domain http_client) λ p. ok (record {
          api = p.0;
          domain = p.1;
          destructive_actions = is_true opts.enable_destructive_api_calls;
          parse = parse;
          fuel = fuel;
        })

  -- `NewClient`
  unfoldable pub new_client : UrlParser → ℕ → List (ClientOption R L) → Result (ClientContext W)
  unfolding from_options
  new_client parse fuel opt_fns =
      and_then (make_client_options opt_fns) (λ opts. from_options parse fuel opts)
