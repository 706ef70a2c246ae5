-- ===== src/Tests/History.antt =====
-- A Stash server with a history of two commits, asked for pages of one commit.
use go_git_providers.Prelude.{
  List, ℕ, [], ◌∷◌, Str, codes, ◌==◌, nat_eq, list_eq, if◌then◌else◌, some,
}
use go_git_providers.Exec.{ok, got}
use go_git_providers.Stash.Http.{Pairs, RestClient}
use go_git_providers.Stash.Types.{Codecs, Page, CommitObject, no_commit, empty_page}
use go_git_providers.Stash.Paging.{add_paging}
use go_git_providers.Stash.Services.Commits.{until_branch}
use go_git_providers.Tests.Rest.{reply, server, codecs}

-- The text of the number behind the limit, marked.
abbrev start_of : Pairs → Str
start_of [] = []
start_of (p ∷ []) = []
start_of (p ∷ q ∷ ps) = b'@' ∷ q.1

-- The body of a reply is the text of the index that is asked for.
abbrev history_server : RestClient Unit
history_server = record (server (reply 200)) {
  net = record ((server (reply 200)).net) {
    encode = start_of;
    send = λ request w. (ok (record (reply 200) { body = got request.raw_query }), w);
  };
}

abbrev stored : ℕ → CommitObject
stored n = record no_commit { id = n ∷ [] }

abbrev stored_at : Str → List CommitObject
stored_at [] = stored 0 ∷ []
stored_at (x ∷ text) = if text == codes "1" then stored 1 ∷ [] else []

abbrev page_at : Str → Page CommitObject
page_at text = record empty_page { values = stored_at text }

abbrev history_codecs : Codecs
history_codecs = record codecs { commits = λ text page. got (page_at text) }

abbrev query : ℕ → Pairs
query start = add_paging (until_branch []) (some (record { start = start; limit = 1 }))
