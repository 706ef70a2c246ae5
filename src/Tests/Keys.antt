-- ===== src/Tests/Keys.antt =====
-- Deploy keys and repository specs at concrete values.
use go_git_providers.Prelude.{
  ℕ, ◌≡◌, refl, true, false, none, some, [], ◌∷◌, codes, list_beq, arith,
}
use go_git_providers.Exec.{ok}
use go_git_providers.Validation.{new, error}
use go_git_providers.Gitprovider.Info.{
  DeployKeyInfo, deploy_key_info, validate_and_default_info, require, deploy_key_validate_info,
  deploy_key_default,
}
use go_git_providers.Gitprovider.Enums.Known.{is_known}
use go_git_providers.Github.Api.{Repository, Key, Listing}
use go_git_providers.Github.Checks.{validate_deploy_key_api, validate_all, first_error, require_set}
use go_git_providers.Github.Client.{list_keys, list}
use go_git_providers.Github.Context.{ClientContext}
use go_git_providers.Github.DeployKey.{
  find_key, acting, create_into_self, reconcile, client_reconcile, deploy_key_from_api,
}
use go_git_providers.Github.DeployKey.Find.{find_key-first}
use go_git_providers.Github.DeployKey.Lookup.{reconcile-creates, client_reconcile-same}
use go_git_providers.Github.Repository.{Ref, org, identity, repository}
use go_git_providers.Github.Spec.{Located, update_github_repository, new_github_repository_spec}
use go_git_providers.Github.Spec.Laws.{
  OnlyOthers, settable, update_github_repository-apart, new_github_repository_spec-settable,
}
use go_git_providers.Github.Util.{all_pages, calling, handled, validate_api_object}
use go_git_providers.Tests.Calls.{counting_client}
use go_git_providers.Tests.Hub.{podinfo, podinfo_ref}

abbrev other_key : Key
other_key = record {
  id = some 6;
  key = some (codes "ssh-rsa BBBB");
  title = some (codes "robot");
  read_only = some false;
}

abbrev stored : Key
stored = record {
  id = some 7;
  key = some (codes "ssh-rsa AAAA");
  title = some (codes "ci");
  read_only = some true;
}

abbrev one_page : Listing ℕ Key
one_page p w = (ok (other_key ∷ stored ∷ [], 0), w)

abbrev key_client : ClientContext ℕ
key_client = record counting_client {
  api = record (counting_client.api) { repositories_list_keys = λ o n. one_page };
}

abbrev ref : Ref
ref = org podinfo_ref

listed : list_keys key_client (identity ref) (repository ref) 0 ≡ (ok (other_key ∷ stored ∷ []), 0)
unfolding list_keys list all_pages calling handled validate_all first_error validate_deploy_key_api
    validate_api_object require_set error new
listed = refl

-- The key that is stored is created again.
reconcile-creates_example :
    reconcile key_client ref stored 0
    ≡ acting key_client ref (create_into_self key_client ref stored) 0
reconcile-creates_example =
    reconcile-creates key_client ref stored (codes "ssh-rsa AAAA") (other_key ∷ stored ∷ []) 0 0
      refl listed ((codes "robot", refl, ground arith), ((codes "ci", refl, ground arith), tt))

abbrev wanted : DeployKeyInfo
wanted = record { name = codes "ci"; key = some (codes "ssh-rsa AAAA"); read_only = none }

abbrev wanted' : DeployKeyInfo
wanted' = record wanted { read_only = some true }

wanted-accepted : validate_and_default_info wanted ≡ ok wanted'
unfolding validate_and_default_info deploy_key_validate_info deploy_key_default require error new
wanted-accepted = refl

stored-wanted : deploy_key_from_api stored ≡ ok wanted'
unfolding deploy_key_from_api
stored-wanted = refl

client_reconcile-same_example :
    client_reconcile key_client ref wanted 0 ≡ (ok (some stored, false, none), 0)
client_reconcile-same_example =
    client_reconcile-same key_client ref wanted wanted' (other_key ∷ []) [] stored 0 0
      wanted-accepted listed ((codes "robot", refl, ground arith), tt) refl stored-wanted

find_key-first_example : find_key (codes "ci") (other_key ∷ stored ∷ []) ≡ ok stored
find_key-first_example =
    find_key-first (codes "ci") (other_key ∷ []) [] stored ((codes "robot", refl, ground arith), tt)
      refl

abbrev desired : Located
desired = record { address = 0; value = podinfo }

abbrev actual : Located
actual = record { address = 1; value = podinfo }

update_github_repository-apart_example : update_github_repository desired actual ≡ podinfo
update_github_repository-apart_example = update_github_repository-apart desired actual (omega arith)

abbrev listed_repository : Repository
listed_repository = record podinfo { other = (codes "Stargazers", codes "3") ∷ [] }

stargazers-other : OnlyOthers listed_repository.other
unfolding list_beq is_known
stargazers-other = (refl, tt)

new_github_repository_spec-settable_example :
    new_github_repository_spec listed_repository ≡ settable listed_repository
new_github_repository_spec-settable_example =
    new_github_repository_spec-settable listed_repository stargazers-other
