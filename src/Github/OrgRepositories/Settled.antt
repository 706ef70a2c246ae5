-- ===== src/Github/OrgRepositories/Settled.antt =====
-- Reconciling a repository that exists on a server that keeps its promises.
use go_git_providers.Prelude.{
  ◌≡◌, sym, ◌∙◌, Bool, true, false, Bool-cases, inl, inr, none, some, List, Str,
}
use go_git_providers.Errors.{or_else}
use go_git_providers.Exec.{ok}
use go_git_providers.Gitprovider.Info.{
  RepositoryInfo, repository_info, repository_validate_info, repository_equals,
  validate_and_default_info,
}
use go_git_providers.Gitprovider.Info.Laws.{repository_equals_iff}
use go_git_providers.Gitprovider.Info.Defaulting.{repository_defaulted}
use go_git_providers.Gitprovider.Options.{RepositoryCreateOption}
use go_git_providers.Gitprovider.Refs.{OrgRepositoryRef}
use go_git_providers.Github.Api.{Repository}
use go_git_providers.Github.Checks.{validate_repository_api}
use go_git_providers.Github.Client.{get_repo, update_repo, fetch}
use go_git_providers.Github.Context.{ClientContext}
use go_git_providers.Github.Repository.{
  UserRepository, new_user_repository, org, identity, repository, get, set, update,
}
use go_git_providers.Github.OrgRepositories.{
  org_get, org_create, org_reconcile, reconcile_repository, reconcile_with,
}
use go_git_providers.Github.OrgRepositories.Reconcile.{reconcile-same}
use go_git_providers.Github.Server.{Server, patch}
use go_git_providers.Github.Spec.{
  repository_from_api, repository_info_to_api_obj, update_api_obj_with_repository_info,
}
use go_git_providers.Github.Spec.Laws.{settable, update_api_obj-settable}
use go_git_providers.Github.Util.{validate_org_repository_ref}
use go_git_providers.Github.OrgRepositories.Target.{
  IsTaken, target, target-IsTaken, get-target, description_differs, description_stays,
}

set_valid :
    (req : RepositoryInfo) (u : UserRepository)
    → repository_validate_info req ≡ none
    → set req u
      ≡ (record u { top_update = some (update_api_obj_with_repository_info req u.r) }, none)
unfolding set
set_valid req u h = rw (h, set)

module _ {W : Type 0} (c : ClientContext W) (s : Server c.api) where
  get_repo-present :
      (w : W) (owner name : Str) (r : Repository)
      → s.at w owner name ≡ some r
      → validate_repository_api r ≡ none
      → get_repo c owner name w ≡ (ok r, w)
  unfolding get_repo fetch
  get_repo-present w owner name r h v = rw (s.get_present w owner name r h) (rw v)

  update_repo-present :
      (w : W) (owner name : Str) (r u : Repository)
      → s.at w owner name ≡ some r
      → validate_repository_api (patch u r) ≡ none
      → (v : W) × (update_repo c owner name (some u) w ≡ (ok (patch u r), v))
        × (s.at v owner name ≡ some (patch u r))
  unfolding update_repo fetch
  update_repo-present w owner name r u h k =
      let (v, e, a) = s.edit_present w owner name r u h in (v, rw e (rw k), a)

  org_get-present :
      (w : W) (ref : OrgRepositoryRef) (r : Repository)
      → validate_org_repository_ref c.parse ref c.domain ≡ none
      → s.at w (identity (org ref)) ref.repository_name ≡ some r
      → IsTaken r
      → org_get c ref w ≡ (ok (new_user_repository r (org ref)), w)
  unfolding org_get
  org_get-present w ref r h a t =
      rw h (rw (get_repo-present w (identity (org ref)) ref.repository_name r a t.valid))

  -- The object behind a change: the server's answer.
  abbrev changed : OrgRepositoryRef → RepositoryInfo → Repository → UserRepository
  changed ref req r = record {
    r = target req r;
    top_update = some (repository_info_to_api_obj req (settable r));
    ref = org ref;
  }

  reconcile_repository-differs :
      (w : W) (ref : OrgRepositoryRef) (req : RepositoryInfo) (r : Repository)
      → repository_validate_info req ≡ none
      → s.at w (identity (org ref)) ref.repository_name ≡ some r
      → IsTaken r
      → repository_equals req (get (new_user_repository r (org ref))) ≡ false
      → (v : W) × (reconcile_repository c (new_user_repository r (org ref)) req w
          ≡ (ok (changed ref req r, true, none), v))
        × (s.at v (identity (org ref)) ref.repository_name ≡ some (target req r))
  unfolding reconcile_repository update repository
  reconcile_repository-differs w ref req r h a t d =
      let k = target-IsTaken req r h t in
      let (v, e, b) =
        update_repo-present w (identity (org ref)) ref.repository_name r
          (repository_info_to_api_obj req (settable r)) a k.valid in
      (
        v,
        rw d (
            rw (set_valid req (new_user_repository r (org ref)) h)
              (rw (update_api_obj-settable req r t.others) (rw e))),
        b,
      )

  -- The repository stands on the server as `r`, and the client takes the reference.
  pub record Stands (w : W) (ref : OrgRepositoryRef) (r : Repository) : Type 0 where
    pub accepted : validate_org_repository_ref c.parse ref c.domain ≡ none
    pub stored : s.at w (identity (org ref)) ref.repository_name ≡ some r
    pub taken : IsTaken r

  reconcile-acts :
      (w : W) (ref : OrgRepositoryRef) (req req' : RepositoryInfo)
      (opts : List RepositoryCreateOption) (r : Repository)
      → Stands w ref r
      → validate_and_default_info req ≡ ok req'
      → repository_equals req' (get (new_user_repository r (org ref))) ≡ false
      → (v : W) × (org_reconcile c ref req opts w ≡ (ok (some (changed ref req' r), true, none), v))
        × Stands v ref (target req' r)
  unfolding org_reconcile reconcile_with
  reconcile-acts w ref req req' opts r st h d =
      let valid = (repository_defaulted req req' h).3 in
      let (v, e, b) = reconcile_repository-differs w ref req' r valid st.stored st.taken d in
      (
        v,
        rw h (rw (org_get-present w ref r st.accepted st.stored st.taken) (rw e)),
        record { accepted = st.accepted; stored = b; taken = target-IsTaken req' r valid st.taken },
      )

  stays :
      (w : W) (ref : OrgRepositoryRef) (req req' : RepositoryInfo)
      (opts : List RepositoryCreateOption) (r : Repository)
      → Stands w ref r
      → validate_and_default_info req ≡ ok req'
      → repository_from_api r ≡ req'
      → org_reconcile c ref req opts w
        ≡ (ok (some (new_user_repository r (org ref)), false, none), w)
  unfolding org_reconcile get
  stays w ref req req' opts r st h e =
      reconcile-same c (org_get c ref) (λ q. org_create c ref q opts) req w req' _ w h
        (org_get-present w ref r st.accepted st.stored st.taken) e

  -- On a server that keeps its promises, where the reference and the request are accepted and the
  -- stored repository is valid and has no unknown field named like a settable one, reconciling it
  -- succeeds, leaves the object as requested, and a second time takes no action; provided that the
  -- request has a description or the repository has none.
  pub org_reconcile-settles :
      (w : W) (ref : OrgRepositoryRef) (req req' : RepositoryInfo)
      (opts : List RepositoryCreateOption) (r : Repository)
      → Stands w ref r
      → validate_and_default_info req ≡ ok req'
      → or_else req.description r.description ≡ req.description
      → (v : W) × (u : UserRepository) × (acted : Bool) × (org_reconcile c ref req opts w
          ≡ (ok (some u, acted, none), v))
        × (get u ≡ req')
        × (org_reconcile c ref req opts v
            ≡ (ok (some (new_user_repository u.r (org ref)), false, none), v))
  unfolding get
  org_reconcile-settles w ref req req' opts r st h d =
      elim (Bool-cases (repository_equals req' (repository_from_api r))) [
        | inl same ↦
            let e = sym ((repository_equals_iff req' (repository_from_api r)).0 same) in
            let once = stays w ref req req' opts r st h e in
            (w, new_user_repository r (org ref), false, once, e, once)
        | inr differs ↦
            let (v, e, st') = reconcile-acts w ref req req' opts r st h differs in
            let g = get-target req req' r h d in
            (v, changed ref req' r, true, e, g, stays v ref req req' opts (target req' r) st' h g)
      ]

  -- On a server that keeps its promises, where the reference and the request are accepted and the
  -- stored repository is valid and has no unknown field named like a settable one, a request
  -- without a description never settles on a repository that has one: an action is taken, and
  -- afterwards all of this holds again and the repository still has that description.
  pub org_reconcile-restless :
      (w : W) (ref : OrgRepositoryRef) (req req' : RepositoryInfo)
      (opts : List RepositoryCreateOption) (r : Repository) (text : Str)
      → Stands w ref r
      → validate_and_default_info req ≡ ok req'
      → req.description ≡ none
      → r.description ≡ some text
      → (v : W) × (u : UserRepository) × (org_reconcile c ref req opts w
          ≡ (ok (some u, true, none), v))
        × Stands v ref u.r
        × (u.r.description ≡ some text)
  unfolding get
  org_reconcile-restless w ref req req' opts r text st h n d =
      let n' : req'.description ≡ none = (repository_defaulted req req' h).0 ∙ n in
      let (v, e, st') =
        reconcile-acts w ref req req' opts r st h (description_differs req' r text n' d) in
      (v, changed ref req' r, e, st', description_stays req' r text n' d)
