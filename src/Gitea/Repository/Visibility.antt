-- ===== src/Gitea/Repository/Visibility.antt =====
-- gitea/resource_repository.go: what `Set` keeps of a request.
use go_git_providers.Prelude.{some, Str, nat_eq, list_eq}
use go_git_providers.Gitprovider.Enums.Visibility
use go_git_providers.Gitprovider.Info.{RepositoryInfo}

-- A request with every field.
abbrev pub complete : Str → Str → Str → RepositoryInfo
complete description branch visibility = record {
  description = some description;
  default_branch = some branch;
  visibility = some visibility;
}
