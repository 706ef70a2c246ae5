-- ===== src/Gitprovider/Refs/Clone.antt =====
-- gitprovider/repositoryref.go: clone URLs.
use go_git_providers.Prelude.{
  [], ◌∷◌, ◌++◌, Str, codes, ◌==◌, nat_eq, list_eq, if◌then◌else◌, length,
}
use go_git_providers.Exec.{Result, ok, and_then}
use go_git_providers.Strings.{remove_from}
use go_git_providers.Gitprovider.Enums.Transport
use go_git_providers.Gitprovider.Enums.Transport.{TransportType}
use go_git_providers.Gitprovider.Refs.{RepositoryRef, slashed}

-- `ParseTypeHTTPS`
unfoldable pub parse_type_https : Str → Str
parse_type_https url = url ++ codes ".git"

-- `ParseTypeGit`
unfoldable pub parse_type_git : Str → Str → Str → Str
parse_type_git domain identity repository =
    codes "git@" ++ (domain ++ (b':' ∷ (slashed identity repository ++ codes ".git")))

-- `strings.Replace(s, old, "", -1)`
unfoldable pub remove_all : Str → Str → Str
unfolding remove_from
remove_all s old = remove_from (length s) s old

-- `ParseTypeSSH`
unfoldable pub parse_type_ssh : Str → Str → Str → Str
unfolding remove_all
parse_type_ssh domain identity repository =
    let trimmed_domain = remove_all (remove_all domain (codes "https://")) (codes "http://") in
    codes "ssh://git@" ++ slashed trimmed_domain (slashed identity repository)

-- `GetCloneURL`
unfoldable pub get_clone_url : RepositoryRef → TransportType → Result Str
unfolding parse_type_https parse_type_git parse_type_ssh
get_clone_url rs transport =
    if transport == Transport.https
    then and_then rs.string (λ s. ok (parse_type_https s))
    else if transport == Transport.git
    then ok (parse_type_git rs.get_domain rs.get_identity rs.get_repository)
    else if transport == Transport.ssh
    then ok (parse_type_ssh rs.get_domain rs.get_identity rs.get_repository)
    else ok []
