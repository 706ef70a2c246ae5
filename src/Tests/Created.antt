-- ===== src/Tests/Created.antt =====
-- A new repository of Stash, on a server that accepts what it is asked, where no worktree can be made.
use go_git_providers.Prelude.{
  ◌≡◌, refl, true, inl, none, some, List, [], ◌∷◌, codes, list_beq, nat_eq, list_eq,
}
use go_git_providers.Errors.{foreign}
use go_git_providers.Exec.{ok, got}
use go_git_providers.Validation.{new, error}
use go_git_providers.Gitprovider.Enums.Known.{is_known}
use go_git_providers.Gitprovider.Enums.Visibility
use go_git_providers.Gitprovider.Enums.Visibility.{validate_repository_visibility}
use go_git_providers.Gitprovider.Info.{
  RepositoryInfo, repository_info, repository_validate_info, repository_default, append_if_set,
  validate_and_default_info,
}
use go_git_providers.Gitprovider.Options.{
  RepositoryCreateOption, apply_to_repository_create_options, make_repository_create_options,
}
use go_git_providers.Stash.Http.{delete_method}
use go_git_providers.Stash.Types.{User, Codecs, no_repository, no_user, session_of}
use go_git_providers.Stash.Services.Repositories
use go_git_providers.Stash.Services.Repositories.{repositories_path}
use go_git_providers.Stash.Services.Replies.{delete_iff}
use go_git_providers.Stash.Services.Users
use go_git_providers.Stash.Git.{CreateCommit, with_files, new_commit, get_repo_http_ref}
use go_git_providers.Stash.Context.{StashContext}
use go_git_providers.Stash.Repository.{repository_to_api}
use go_git_providers.Stash.Repositories.Create.{
  create_repository, wants_init, initial_commit, readme, needs_branch, license_files,
}
use go_git_providers.Stash.Repositories.Init.{create_repository-deleted}
use go_git_providers.Tests.Rest.{reply, server, codecs, context, answered}
use go_git_providers.Tests.Stash.{at_podinfo}

abbrev alice : User
alice = record no_user { name = codes "alice"; email_address = codes "alice@corp" }

abbrev alice_codecs : Codecs
alice_codecs = record codecs { user = λ text u. got alice }

abbrev corp : StashContext Unit
corp = record (context (reply 200)) { json = alice_codecs }

abbrev on_master : RepositoryInfo
on_master = record {
  description = none;
  default_branch = some (codes "master");
  visibility = some Visibility.private;
}

abbrev with_init : List RepositoryCreateOption
with_init =
    apply_to_repository_create_options (record { auto_init = some true; license_template = none })
    ∷ []

abbrev first_commit : CreateCommit
first_commit = record {
  author = some (record { date = 0; name = codes "alice"; email = codes "alice@corp" });
  committer = none;
  message = codes "initial commit";
  url = codes "no http ref found";
  files = readme corp no_repository ∷ [];
}

on_master-accepted : validate_and_default_info on_master ≡ ok on_master
unfolding validate_and_default_info repository_validate_info repository_default append_if_set
    validate_repository_visibility error new list_beq is_known
on_master-accepted = refl

repository-created :
    Repositories.create
      (server (reply 200))
      alice_codecs
      (codes "PRJ")
      (repository_to_api on_master at_podinfo)
      tt
    ≡ (ok no_repository, tt)
unfolding Repositories.create session_of
repository-created = refl

alice-known : Users.get (server (reply 200)) alice_codecs [] tt ≡ (ok alice, tt)
unfolding Users.get
alice-known = refl

repository-deleted : Repositories.delete (server (reply 200)) alice_codecs [] [] tt ≡ (ok tt, tt)
repository-deleted =
    (delete_iff (server (reply 200)) alice_codecs [] [] tt tt (reply 200) (codes "{}")
        (answered (reply 200) delete_method (repositories_path [] ([] ∷ [])) []) refl).1
      (inl refl)

create_repository-deleted_example :
    create_repository corp (codes "PRJ") at_podinfo on_master with_init tt ≡ (ok no_repository, tt)
unfolding make_repository_create_options apply_to_repository_create_options wants_init needs_branch
    repository_to_api license_files initial_commit new_commit get_repo_http_ref with_files list_beq
create_repository-deleted_example =
    create_repository-deleted corp (codes "PRJ") at_podinfo on_master on_master with_init
      no_repository alice [] first_commit (foreign (codes "no space left on device")) tt tt tt tt tt
      tt on_master-accepted refl refl refl repository-created alice-known refl refl refl
      repository-deleted
