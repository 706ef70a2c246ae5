-- ===== src/Github/Context.antt =====
-- github/client.go: `clientContext`, with the `githubClientImpl` in it, which holds the go-github
-- client and a copy of the flag for destructive calls. The model adds the parameter `url.Parse` and
-- the number of pages that it follows a listing for.
use go_git_providers.Prelude.{ℕ, Bool, Str}
use go_git_providers.Gitprovider.Url.{UrlParser}
use go_git_providers.Github.Api.{GoGithub}

pub record ClientContext (W : Type 0) : Type 0 where
  pub api : GoGithub W
  pub domain : Str
  pub destructive_actions : Bool
  pub parse : UrlParser
  pub fuel : ℕ
