-- ===== src/Gitlab/Context.antt =====
-- gitlab/client.go: `clientContext`, with the `gitlabClientImpl` in it. The model adds `url.Parse`,
-- `strings.ToLower`, the text of an error, and the number of pages that it follows a listing for.
use go_git_providers.Prelude.{ℕ, Bool, Str}
use go_git_providers.Errors.{Err}
use go_git_providers.Gitprovider.Url.{UrlParser}
use go_git_providers.Gitlab.Api.{GoGitlab}

pub record ClientContext (W : Type 0) : Type 0 where
  pub api : GoGitlab W
  pub domain : Str
  pub ssh_domain : Str
  pub destructive_actions : Bool
  pub parse : UrlParser
  pub to_lower : Str → Str
  pub error_text : Err → Str
  pub fuel : ℕ
