-- ===== src/Tests/Built.antt =====
-- A client built from options, on the server with at most one repository.
use go_git_providers.Prelude.{ℕ, ◌≡◌, refl, true, some, List, [], ◌∷◌, map, codes, list_beq}
use go_git_providers.Errors.{Err, is_error, destructive_call_disallowed}
use go_git_providers.Exec.{ok, err}
use go_git_providers.Gitprovider.ClientOptions.{
  ClientOptions, no_options, no_common_options, apply_to_client_options, make_client_options,
  apply_options, apply_to_common_client_options, set_once, set_domain,
}
use go_git_providers.Gitprovider.ClientOptions.Chain.{get_transport_chain, is_true}
use go_git_providers.Gitprovider.ClientOptions.Transport.{
  build_client_from_transport_chain, build_from,
}
use go_git_providers.Github.Client.{delete_repo}
use go_git_providers.Github.Context.{ClientContext}
use go_git_providers.Github.NewClient.{GithubClients, new_client, from_options, choose_client}
use go_git_providers.Github.NewClient.Destructive.{new_client-disallows}
use go_git_providers.Tests.Hub.{Hub, hub, client, podinfo}
use go_git_providers.Tests.Net.{plain_parse}
use go_git_providers.Tests.Options.{transports}

abbrev clients : GithubClients (List ℕ) Hub
clients = record { new_github_client = λ h. hub; new_enterprise_client = λ base upload h. ok hub }

abbrev at_enterprise : ClientOptions (List ℕ) ℕ
at_enterprise = record no_options {
  common = record no_common_options { domain = some (codes "git.corp") };
}

abbrev with_cache : ClientOptions (List ℕ) ℕ
with_cache = record no_options { enable_conditional_requests = some true }

abbrev built : ClientContext Hub
built = record client { domain = codes "git.corp" }

client-built :
    new_client transports clients plain_parse 2
      (map apply_to_client_options (at_enterprise ∷ with_cache ∷ []))
    ≡ ok built
unfolding new_client from_options choose_client make_client_options apply_options
    apply_to_client_options apply_to_common_client_options set_once set_domain get_transport_chain
    is_true build_client_from_transport_chain build_from list_beq
client-built = refl

new_client-disallows_example :
    (e : Err) × (delete_repo built (codes "flux") (codes "podinfo") (some podinfo)
      ≡ (err e, some podinfo))
    × (is_error e destructive_call_disallowed ≡ true)
new_client-disallows_example =
    new_client-disallows transports clients plain_parse 2 (at_enterprise ∷ with_cache ∷ []) built
      (codes "flux") (codes "podinfo") (some podinfo) client-built (refl, (refl, tt))
