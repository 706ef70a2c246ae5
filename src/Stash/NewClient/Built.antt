-- ===== src/Stash/NewClient/Built.antt =====
-- stash/auth.go: the requests of a client that was built.
use go_git_providers.Prelude.{◌≡◌, ◌≢◌, [], ◌∷◌, ◌++◌, Str, codes}
use go_git_providers.Exec.{Result, ok}
use go_git_providers.Gitprovider.ClientOptions.{ClientOptions}
use go_git_providers.Stash.Http.{Pairs, RestClient}
use go_git_providers.Stash.NewClient.{
  Credentials, no_credentials, RequestUriParser, Below, Provider,
}

-- The header of every request of a user with this token.
abbrev pub bearer : Str → Pairs
bearer token = (codes "Authorization", codes "Bearer " ++ token) ∷ []

-- The REST client acts for the user, who is named, with the token, which is not empty.
record ActsFor {W : Type 0} (username token : Str) (c : RestClient W) : Type 0 where
  named : username ≢ []
  secret : token ≢ []
  as_user : c.username ≡ username
  header : c.header_fields ≡ bearer token

record Holds (username token : Str) (c : Credentials) : Type 0 where
  named : username ≢ []
  secret : token ≢ []
  as_user : c.username ≡ username
  with_token : c.token ≡ token

made_of : Result Credentials → Credentials
made_of (ok c) = c
made_of _ = no_credentials

module _ {R W : Type 0} (b : Below R W) (parse_uri : RequestUriParser) where
  client_of : RestClient W × Credentials → Result (RestClient W × Credentials) → RestClient W
  client_of p (ok q) = q.0
  client_of p _ = p.0

rest_of : {W : Type 0} → Provider W → Result (Provider W) → RestClient W
rest_of p (ok q) = q.context.client
rest_of p _ = p.context.client
