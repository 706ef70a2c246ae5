-- ===== src/Stash/Services/Commits/Window.antt =====
-- stash/commits.go: the commits that the pages of `ListPage` show.

use go_git_providers.Prelude.{
  ◌≡◌, ℕ, zero, suc, ◌-◌, nat_eq, some, List, [], ◌∷◌, Str, leb, if◌then◌else◌,
}
use go_git_providers.Exec.{ok, got}
use go_git_providers.Stash.Http.{HttpResponse, RestClient, with_query, get_method}
use go_git_providers.Stash.Http.Replies.{Answered}
use go_git_providers.Stash.Types.{Codecs, Page, CommitObject, empty_page}
use go_git_providers.Stash.Paging.{add_paging}
use go_git_providers.Stash.Services.{Texts}
use go_git_providers.Stash.Services.Repositories.{repositories_path}
use go_git_providers.Stash.Services.Commits.{list_page, until_branch, commits_uri}

-- The commits of a history from an index on, and how many a page of the server has.
abbrev pub commits_from : (ℕ → CommitObject) → ℕ → ℕ → List CommitObject
commits_from commit start zero = []
commits_from commit start (suc n) = commit start ∷ commits_from commit (suc start) n

abbrev pub page_size : ℕ → ℕ → ℕ → ℕ
page_size total limit start = if leb limit (total - start) then limit else total - start

-- A commit with the identifier is in the list.
pub data Shows (id : Str) : List CommitObject → Type 0 where
  here : (k : CommitObject) (ks : List CommitObject) → k.id ≡ id → Shows id (k ∷ ks)
  there : (k : CommitObject) (ks : List CommitObject) → Shows id ks → Shows id (k ∷ ks)

module _ {W : Type 0} (c : RestClient W) (j : Codecs) (project_key slug branch : Str) where
  -- A server with a history of `total` commits: a request for `limit` commits from an index on is
  -- answered with 200 and a body that decodes to a page with the commits from there, as many as
  -- there are up to the limit. Its state stays as it is.
  pub record Serves (commit : ℕ → CommitObject) (total limit : ℕ) (w : W) : Type 0 where
    pub resp : ℕ → HttpResponse
    pub bytes : ℕ → Str
    pub page : ℕ → Page CommitObject
    pub answered :
        (start : ℕ)
        → Answered c get_method
            (repositories_path project_key (slug ∷ commits_uri ∷ []))
            (with_query
                (add_paging (until_branch branch) (some (record { start = start; limit = limit })))
              ∷ [])
            w
            (resp start)
            w
    pub status : (start : ℕ) → (resp start).status_code ≡ 200
    pub body : (start : ℕ) → (resp start).body ≡ got (bytes start)
    pub decoded : (start : ℕ) → j.commits (bytes start) empty_page ≡ got (page start)
    pub values :
        (start : ℕ) → (page start).values ≡ commits_from commit start (page_size total limit start)

  -- `ListPage` returns a list that has a commit with the identifier.
  abbrev pub ShownOn : ℕ → ℕ → W → Str → Type 0
  ShownOn per_page page w id =
      (ks : List CommitObject) × (list_page c j project_key slug branch per_page page w
        ≡ (ok ks, w))
      × Shows id ks

abbrev list_texts : Texts
list_texts = record {
  creation = "list commits request creation failed: %w";
  call = "list commits failed: %w";
  decoding = "list commits for repository failed, unable to unmarshall repository json: %w";
}
