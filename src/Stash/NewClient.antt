-- ===== src/Stash/NewClient.antt =====
-- stash/auth.go, `NewClient` of stash/client.go with its options, and `newClient` of stash/stash.go:
-- the construction of a client. What lies below the REST client is a parameter, and so are
-- `url.ParseRequestURI`, `encoding/json`, the Git commands and the random bytes.
pub mod Built
use go_git_providers.Prelude.{
  ℕ, Bool, true, false, not, ◌&&◌, Option, none, some, List, [], ◌∷◌, ◌++◌, Str, codes, is_empty,
  ◌==◌, nat_eq, list_eq, if◌then◌else◌,
}
use go_git_providers.Errors.{Err, wrap, foreign}
use go_git_providers.Exec.{Result, ok, err, and_then, Exec, Attempt}
use go_git_providers.Strings.{contains}
use go_git_providers.Gitprovider.Url.{UrlParser}
use go_git_providers.Gitprovider.ClientOptions.{ClientOptions, ClientOption, make_client_options}
use go_git_providers.Gitprovider.ClientOptions.Chain.{get_transport_chain, is_true}
use go_git_providers.Gitprovider.ClientOptions.Transport.{
  Transports, build_client_from_transport_chain,
}
use go_git_providers.Stash.Http.{Pairs, Net, RestClient, or_fail}
use go_git_providers.Stash.Types.{Codecs}
use go_git_providers.Stash.Git.{Git}
use go_git_providers.Stash.Services.{map_error}
use go_git_providers.Stash.Context.{StashContext}

-- The part of `Client` that its options set.
pub record Credentials : Type 0 where
  pub username : Str
  pub token : Str
  pub ca_bundle : Str

abbrev pub no_credentials : Credentials
no_credentials = record { username = []; token = []; ca_bundle = [] }

abbrev pub ClientOptionsFunc : Type 0
ClientOptionsFunc = Credentials → Result Credentials

-- `WithCABundle`
unfoldable pub with_ca_bundle : Str → ClientOptionsFunc
with_ca_bundle [] c = err (foreign (codes "caBundle cannot be empty"))
with_ca_bundle (b ∷ bundle) c = ok (record c { ca_bundle = b ∷ bundle })

-- `WithAuth`
unfoldable pub with_auth : Str → Str → ClientOptionsFunc
with_auth [] token c = err (foreign (codes "user name is required"))
with_auth (u ∷ username) [] c = err (foreign (codes "token is required"))
with_auth (u ∷ username) (t ∷ token) c =
    ok (record c { username = u ∷ username; token = t ∷ token })

-- the loop over the options
unfoldable pub apply_client_options : List ClientOptionsFunc → Credentials → Result Credentials
apply_client_options [] c = ok c
apply_client_options (opt ∷ opts) c = and_then (opt c) (apply_client_options opts)

-- `*url.URL`, by its host and its path
pub record BaseUrl : Type 0 where
  pub host : Str
  pub path : Str

-- `url.ParseRequestURI`
abbrev pub RequestUriParser : Type 0
RequestUriParser = Str → Attempt BaseUrl

-- The text that `setBaseURL` parses.
unfoldable pub base_text : Str → Str
unfolding contains
base_text host =
    if not (contains host (codes "http")) && not (contains host (codes "https"))
    then codes "https://" ++ host
    else host

-- `(*Client).setBaseURL`
unfoldable pub set_base_url : RequestUriParser → Str → Result BaseUrl
unfolding or_fail base_text
set_base_url parse host =
    or_fail (wrap "failed to parse host %s to url, %w" (base_text host ∷ []))
      (parse (base_text host)) ok

-- `header.Set(key, value)`
unfoldable pub set_header : Str → Str → Pairs → Pairs
set_header key value [] = (key, value) ∷ []
set_header key value (p ∷ ps) =
    let rest = set_header key value ps in if p.0 == key then rest else p ∷ rest

-- The header of every request; a nil header is an empty one.
unfoldable pub header_of : Str → Pairs → Pairs
unfolding set_header
header_of token header =
    if is_empty token
    then header
    else set_header (codes "Authorization") (codes "Bearer " ++ token) header

-- What is below the REST client and beside it: `net` is given the HTTP client, `git` the REST client
-- with the user's name, the token and the certificates.
pub record Below (R W : Type 0) : Type 0 where
  pub net : Option R → Net W
  pub git : Credentials → Git W
  pub json : Codecs
  pub download : Str → Exec W Str
  pub random : ℕ → Exec W Str

-- The options for the REST client.
unfoldable pub rest_options : Str → Str → Option Str → List ClientOptionsFunc
unfolding with_auth with_ca_bundle
rest_options username token none = with_auth username token ∷ []
rest_options username token (some []) = with_auth username token ∷ []
rest_options username token (some (x ∷ bundle)) =
    with_auth username token ∷ with_ca_bundle (x ∷ bundle) ∷ []

module _ {R W : Type 0} (b : Below R W) (parse_uri : RequestUriParser) where
  -- `NewClient` of stash/client.go behind its options
  unfoldable pub with_credentials :
      Option R → Str → Pairs → Credentials → Result (RestClient W × Credentials)
  unfolding set_base_url header_of
  with_credentials http_client host header c = and_then (set_base_url parse_uri host) λ base. ok (
    record {
      net = b.net http_client;
      base_host = base.host;
      base_path = base.path;
      header_fields = header_of c.token header;
      username = c.username;
    },
    c,
  )

  -- `NewClient` of stash/client.go
  unfoldable pub new_rest_client :
      Option R → Str → Pairs → List ClientOptionsFunc → Result (RestClient W × Credentials)
  unfolding apply_client_options with_credentials
  new_rest_client http_client host header opts =
      if is_empty host
      then err (foreign (codes "host is required"))
      else and_then (apply_client_options opts no_credentials)
          (with_credentials http_client host header)

-- What `NewStashClient` returns: the context, and whether destructive calls are allowed, which is
-- a field of `clientContext` that nothing reads.
pub record Provider (W : Type 0) : Type 0 where
  pub context : StashContext W
  pub destructive_actions : Bool

module _ {R W : Type 0} (b : Below R W) where
  -- `newClient` of stash/stash.go. The parser and the number of pages are the model's.
  unfoldable pub provider_of : UrlParser → ℕ → Str → Bool → RestClient W × Credentials → Provider W
  provider_of parse fuel host destructive p = record {
    context = record {
      client = p.0;
      json = b.json;
      git = b.git p.1;
      download = b.download;
      random = b.random;
      fuel = fuel;
      parse = parse;
      host = host;
    };
    destructive_actions = destructive;
  }

module _ {R L W : Type 0} (b : Below R W) (parse_uri : RequestUriParser) where
  -- `NewStashClient` behind the HTTP client
  unfoldable pub at_domain :
      UrlParser → ℕ → Str → Str → ClientOptions R L → Option R → Option Str → Result (Provider W)
  unfolding or_fail map_error new_rest_client rest_options provider_of is_true
  at_domain parse fuel username token opts http_client none =
      err (foreign (codes "host is required"))
  at_domain parse fuel username token opts http_client (some host) =
      or_fail (wrap "failed parsing host URL %q: %w" (host ∷ [])) (parse host) λ url.
        and_then
          (map_error (wrap "failed creating client: %w" []) (
            new_rest_client b parse_uri http_client host []
              (rest_options username token opts.ca_bundle)))
          (λ p. ok (provider_of b parse fuel host (is_true opts.enable_destructive_api_calls) p))

module _ {R L W : Type 0} (t : Transports R) (b : Below R W) (parse_uri : RequestUriParser) where
  -- `NewStashClient`
  unfoldable pub new_stash_client :
      UrlParser → ℕ → Str → Str → List (ClientOption R L) → Result (Provider W)
  unfolding map_error at_domain
  new_stash_client parse fuel username token opt_fns =
      and_then
        (map_error (wrap "failed making client options: %w" []) (make_client_options opt_fns))
        λ opts.
          and_then
            (map_error (wrap "failed building client: %w" [])
              (build_client_from_transport_chain (get_transport_chain t opts)))
            (λ http_client.
              at_domain b parse_uri parse fuel username token opts http_client opts.domain)
