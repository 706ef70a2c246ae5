-- ===== src/Lib.antt =====
-- go-git-providers: one interface to the REST APIs of Git hosting services.
--
-- The package gitprovider defines references to organizations, users and repositories, requests
-- that describe resources, errors, and the options of a client. The package validation collects
-- the errors of an object. Each service has a package that implements the interfaces of
-- gitprovider: a client validates a reference and a request with the two packages above, calls
-- the API through a layer that follows pages, translates errors and checks the objects of the
-- server, and hands out objects which can be set, updated, reconciled and deleted. The services
-- are GitHub, GitLab and Gitea, whose APIs are called through go-github, go-gitlab and the SDK
-- of Gitea, and Stash, for which the package has a REST client of its own.
--
--   Prelude, Strings   the libraries' names, equality tests, byte strings, the package strings
--   Errors             gitprovider/errors.go, validation/multierror.go, the package errors
--   Exec               how a Go function ends: a result, an error, a panic; calls to a server
--   Validation         validation/validation.go: `Append`, `Required`, `Error`, `ValidateTargets`
--   Gitprovider.Enums  gitprovider/enums.go
--   Gitprovider.Info   gitprovider/types_repository.go and `ValidateAndDefaultInfo`
--   Gitprovider.Options        gitprovider/options.go
--   Gitprovider.Url            gitprovider/util.go, with `url.Parse` as a parameter
--   Gitprovider.Refs           gitprovider/repositoryref.go: references, their URLs, clone URLs
--   Gitprovider.ParseUrl       gitprovider/repositoryref.go: the `Parse…URL` functions
--   Gitprovider.ClientOptions  gitprovider/client_options.go: options and the chain of transports
--   Github.Api                 the structs and calls of go-github that the code uses
--   Github.Util                github/util.go: references, HTTP errors, `allPages`
--   Github.Checks              the checks of server data
--   Github.Client              github/githubclient.go: the calls of `githubClientImpl`
--   Github.Context             github/client.go: `clientContext`
--   Github.NewClient           github/auth.go: `NewClient`
--   Github.Spec                github/resource_repository.go: specs and translations
--   Github.Repository          github/resource_repository.go: the object `userRepository`
--   Github.OrgRepositories     github/client_repositories_org.go, client_repositories_user.go
--   Github.Organizations       github/client_organizations.go, resource_organization.go,
--                              client_organization_teams.go
--   Github.DeployKey           github/resource_deploykey.go, client_repository_deploykey.go
--   Github.Teams               github/resource_teamaccess.go, client_repository_teamaccess.go
--   Github.Server              the documented behaviour of a server, as laws of a view of its state
--   Gitprovider.Contents       gitprovider: commits, pull requests, files and trees as data
--   Gitlab.Api                 the structs and calls of go-gitlab that the code uses
--   Gitlab.Util                gitlab/util.go: references, HTTP errors, pagination, server data
--   Gitlab.Context             gitlab/client.go: `clientContext`
--   Gitlab.Client              gitlab/gitlabclient.go: the calls of `gitlabClientImpl`
--   Gitlab.Project             gitlab/resource_repository.go
--   Gitlab.Repositories        gitlab/client_repositories_org.go, client_repositories_user.go
--   Gitlab.DeployKey           gitlab/resource_deploykey.go, client_repository_deploykey.go
--   Gitlab.DeployToken         gitlab/resource_deploytoken.go, client_repository_deploytoken.go
--   Gitlab.TeamAccess          gitlab/resource_teamaccess.go, client_repository_teamaccess.go
--   Gitlab.Organizations       gitlab/client_organizations.go, resource_organization.go,
--                              client_organization_teams.go
--   Gitlab.Commits             gitlab/client_repository_commit.go, client_repository_branch.go,
--                              resource_commit.go
--   Gitlab.PullRequests        gitlab/client_repository_pullrequest.go, resource_pullrequest.go
--   Gitlab.Files               gitlab/client_repository_file.go, client_repository_tree.go
--   Gitlab.NewClient           gitlab/auth.go and gitlab/client.go
--   Gitea.Api                  the structs and calls of Gitea's SDK, and `clientContext`
--   Gitea.Util                 gitea/util.go: references, HTTP errors, pagination, server data
--   Gitea.Repository           gitea/resource_repository.go, and the calls for repositories
--   Gitea.Repositories         gitea/client_repositories_org.go, client_repositories_user.go
--   Gitea.DeployKey            gitea/resource_deploykey.go, client_repository_deploykey.go
--   Gitea.TeamAccess           gitea/resource_teamaccess.go, client_repository_teamaccess.go
--   Gitea.Organizations        gitea/client_organizations.go, resource_organization.go,
--                              client_organization_teams.go
--   Gitea.Commits              gitea/client_repository_commit.go, resource_commit.go
--   Stash.Http                 stash/client.go: requests, replies and retries
--   Stash.Types                the objects of the REST API, with their JSON as a parameter
--   Stash.Paging               stash/resources.go: `allPages`, and the building of paths and queries
--   Stash.Services             the services: stash/repositories.go, projects.go, users.go, groups.go,
--                              branch.go, commits.go, deploy_keys.go, pull_requests.go
--   Stash.Git                  stash/git.go: the description of commits
--   Stash.Context              stash/stash.go, the checks of references and server data
--   Stash.Repository           stash/resource_repository.go: the objects of repositories
--   Stash.Repositories         stash/client_repositories_org.go, client_repositories_user.go
--   Stash.DeployKey            stash/client_repository_deploykey.go, resource_deploykey.go
--   Stash.TeamAccess           stash/client_repository_teamaccess.go, resource_teamaccess.go
--   Stash.Organizations        stash/client_organizations.go, client_organization_teams.go
--   Stash.PullRequests         stash/client_repository_pullrequest.go, and the listing of commits
--   Stash.Commits              stash/client_repository_commit.go, client_repository_branch.go
--   Stash.NewClient            stash/auth.go, and `NewClient` of stash/client.go
--   Tests                      concrete values at which the theorems are applied
--
-- A function keeps its name, in lower case with underscores. A pointer, an interface or a slice
-- that may be nil is an option. A function that cannot fail returns its value; one that can fail
-- returns a `Result`, whose `panic` is the dereference of a nil pointer or an index out of
-- range. A call of the API is a function of the server's state, of any type, that returns a
-- result and the next state. A method that changes its object returns the object beside its
-- error. Go iterates over a map in no fixed order, so a map that is iterated over is the list of
-- its entries in some order.
--
-- The number of pages that a listing is followed for is a field of the context. It is enough
-- where the server has no more pages than that, which is a condition of the theorems on
-- listings. The ten polls of GitLab's `Merge` are the code's own bound; the same field of the
-- context bounds the depth of the recursion of `Update` in Gitlab.TeamAccess.
--
-- `url.Parse`, go-github, go-gitlab, Gitea's SDK and the transports of other packages are
-- parameters, and so are `strings.ToLower`, the decoding of base 64 and the text of an error for
-- GitLab and Gitea. What is used of `url.Parse` is stated as `UrlLaws`, for plain host names and
-- paths; what is used of a server as `Server`. Error texts are kept as their formats and
-- arguments. The remaining fields of go-github's repository, which no request sets, are a list
-- of names and values. For Stash the parameters are the retrying HTTP client with its rate
-- limiter, `encoding/json`, and the Git commands on a clone; the fields of an object that the
-- code passes on unread are one text.
--
-- Not modelled are Gitea's branches, files, trees, pull requests and construction, GitHub's
-- commits, branches, files, trees and pull requests, token permissions, the Git commands of
-- stash/git.go, the HTTP cache, logging and the contexts of Go.
pub mod Prelude
pub mod Strings
pub mod Errors
pub mod Exec
pub mod Validation
pub mod Tests
pub mod Gitprovider
pub mod Github
pub mod Gitlab
pub mod Gitea
pub mod Stash
