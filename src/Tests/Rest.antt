-- ===== src/Tests/Rest.antt =====
-- A Stash server that gives one reply to every request, and the client's context on it.
use go_git_providers.Prelude.{ℕ, refl, none, List, [], Str, codes}
use go_git_providers.Errors.{foreign}
use go_git_providers.Exec.{pure, fail, got}
use go_git_providers.Stash.Http.{
  RestClient, HttpResponse, RequestOptionFunc, new_request, or_fail, build_request, checked_request,
  apply_request_options,
}
use go_git_providers.Stash.Http.Replies.{Answered}
use go_git_providers.Stash.Types.{Codecs, Decoder, encoded}
use go_git_providers.Stash.Git.{Git}
use go_git_providers.Stash.Context.{StashContext}
use go_git_providers.Tests.Net.{plain_parse}

abbrev pub reply : ℕ → HttpResponse
reply status = record {
  status_code = status;
  status = codes "a status";
  header = λ name. [];
  body = got (codes "{}");
}

abbrev pub server : HttpResponse → RestClient Unit
server resp = record {
  net = record {
    path_unescape = got;
    encode = λ query. [];
    show_url = λ host path query. path;
    refused = λ request. none;
    wait = pure tt;
    send = λ request. pure resp;
  };
  base_host = codes "stash.corp";
  base_path = [];
  header_fields = [];
  username = codes "alice";
}

-- Whatever is asked for is decoded to a value without a field.
abbrev keeps : {A : Type 0} → Decoder A
keeps s a = got a

abbrev pub codecs : Codecs
codecs = record {
  repository = keeps;
  repositories = keeps;
  group_permissions = keeps;
  user_permissions = keeps;
  user = keeps;
  users = keeps;
  projects = keeps;
  group = keeps;
  groups = keeps;
  branch = keeps;
  branches = keeps;
  commit = keeps;
  commits = keeps;
  deploy_key = keeps;
  deploy_keys = keeps;
  pull_request = keeps;
  pull_requests = keeps;
  of_repository = λ r. encoded [];
  of_branch_id = λ s. encoded [];
  of_new_branch = λ b. encoded [];
  of_deploy_key = λ k. encoded [];
  of_create_pull_request = λ p. encoded [];
  of_pull_request = λ p. encoded [];
  of_version = λ n. encoded [];
}

-- Clones can be made, and nothing else.
abbrev pub clones : Git Unit
clones = record {
  init_repository = λ c remote. fail (foreign (codes "no space left on device"));
  clone_repository = λ url. pure (record { repository = 1; dir = codes "/tmp/repo-1" });
  create_branch = λ branch r sha. fail (foreign []);
  create_commit = λ r branch c. fail (foreign []);
  push = λ r. fail (foreign []);
  cleanup = λ dir. fail (foreign []);
}

abbrev pub context : HttpResponse → StashContext Unit
context resp = record {
  client = server resp;
  json = codecs;
  git = clones;
  download = λ url. fail (foreign []);
  random = λ n. pure [];
  fuel = 3;
  parse = plain_parse;
  host = codes "stash.corp";
}

-- Every request is answered with the reply.
pub answered :
    (resp : HttpResponse) (method path : Str) (opts : List RequestOptionFunc)
    → Answered (server resp) method path opts tt resp tt
unfolding new_request or_fail checked_request
answered resp method path opts = record {
  request =
      build_request (server resp) method path
        (apply_request_options opts (record { body = none; header = []; query = [] })) path;
  made = refl;
  between = tt;
  waited = refl;
  sent = refl;
}
