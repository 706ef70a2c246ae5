-- ===== src/Gitlab/NewClient/Unknown.antt =====
-- A client for a token of an unknown kind.
use go_git_providers.Prelude.{ℕ, ◌≡◌, refl, false, Option, List, [], Str, ◌==◌, nat_eq, list_eq}
use go_git_providers.Errors.{Err}
use go_git_providers.Exec.{ok, panic}
use go_git_providers.Gitprovider.Url.{UrlParser}
use go_git_providers.Gitprovider.ClientOptions.{ClientOptions, ClientOption, make_client_options}
use go_git_providers.Gitprovider.ClientOptions.Chain.{get_transport_chain, is_true}
use go_git_providers.Gitprovider.ClientOptions.Transport.{
  Transports, build_client_from_transport_chain,
}
use go_git_providers.Gitlab.Client.{get_user}
use go_git_providers.Gitlab.Context.{ClientContext}
use go_git_providers.Gitlab.NewClient.{
  GitlabClients, TokenType, token_type_oauth2, token_type_pat, token_type_basic, nil_client,
  choose_client, from_options, new_client,
}

choose_client-unknown :
    {R W : Type 0} (g : GitlabClients R W) (username password token : Str) (token_type : TokenType)
    (domain : Option Str) (http : Option R)
    → token_type == token_type_oauth2 ≡ false
    → token_type == token_type_pat ≡ false
    → token_type == token_type_basic ≡ false
    → choose_client g username password token token_type domain http ≡ ok (nil_client, [])
unfolding choose_client
choose_client-unknown g username password token token_type domain http a b d =
    rw a (rw b (rw d refl))

module _ {R L W : Type 0} (t : Transports R) (g : GitlabClients R W) (to_lower : Str → Str)
    (error_text : Err → Str) where
  -- A kind of token that `NewClient` does not know is no error: where the options are accepted and
  -- the HTTP client can be built, `NewClient` succeeds. The client that it returns has no domain, and
  -- asking it for the current user panics.
  pub new_client-unknown :
      (parse : UrlParser) (fuel : ℕ) (username password token : Str) (token_type : TokenType)
      (opts : List (ClientOption R L)) (made : ClientOptions R L) (http : Option R) (w : W)
      → token_type == token_type_oauth2 ≡ false
      → token_type == token_type_pat ≡ false
      → token_type == token_type_basic ≡ false
      → make_client_options opts ≡ ok made
      → build_client_from_transport_chain (get_transport_chain t made) ≡ ok http
      → (c : ClientContext W) × (new_client t g to_lower error_text parse fuel username password
            token token_type opts
          ≡ ok c)
        × (c.domain ≡ [])
        × (get_user c w ≡ (panic, w))
  unfolding new_client from_options get_user
  new_client-unknown parse fuel username password token token_type opts made http w a b d m h = (
    record {
      api = nil_client;
      domain = [];
      ssh_domain = [];
      destructive_actions = is_true made.enable_destructive_api_calls;
      parse = parse;
      to_lower = to_lower;
      error_text = error_text;
      fuel = fuel;
    },
    rw m (
        rw h (
          rw (choose_client-unknown g username password token token_type made.domain http a b d)
            refl)),
    refl,
    refl,
  )
