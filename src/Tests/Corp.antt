-- ===== src/Tests/Corp.antt =====
-- A Stash client that is built from options.
use go_git_providers.Prelude.{ℕ, ◌++◌, false, some, List, [], ◌∷◌, codes, nat_eq, list_eq}
use go_git_providers.Exec.{got}
use go_git_providers.Gitprovider.Info.{team_access_info}
use go_git_providers.Gitprovider.ClientOptions.{ClientOptions, no_options, no_common_options}
use go_git_providers.Stash.Http.{
  HttpRequest, RequestOptionFunc, with_body, with_header, post_method,
}
use go_git_providers.Stash.Services.{json_header}
use go_git_providers.Stash.NewClient.{Below, RequestUriParser, Provider}
use go_git_providers.Stash.NewClient.Built.{bearer}
use go_git_providers.Tests.Rest.{reply, server, codecs, clones, context}

abbrev below : Below (List ℕ) Unit
below = record {
  net = λ http. (server (reply 200)).net;
  git = λ c. clones;
  json = codecs;
  download = (context (reply 200)).download;
  random = (context (reply 200)).random;
}

abbrev at_corp : RequestUriParser
at_corp s = got (record { host = codes "stash.corp"; path = [] })

abbrev for_corp : ClientOptions (List ℕ) ℕ
for_corp = record no_options {
  common = record no_common_options { domain = some (codes "stash.corp") };
}

abbrev built : Provider Unit
built = record {
  context = record (context (reply 200)) {
    client = record (server (reply 200)) { header_fields = bearer (codes "secret") };
  };
  destructive_actions = false;
}

-- A request with a body in JSON.
abbrev posted : HttpRequest
posted = record {
  method = post_method;
  host = codes "stash.corp";
  raw_path = codes "/projects";
  path = codes "/projects";
  raw_query = [];
  url = codes "/projects";
  header = bearer (codes "secret") ++ json_header;
  body = some (codes "{}");
}

abbrev in_json : List RequestOptionFunc
in_json = with_body (codes "{}") ∷ with_header json_header ∷ []
