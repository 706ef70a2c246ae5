-- ===== src/Gitlab/Repositories/Branch.antt =====
-- `UpdateProject` does not send the default branch.
use go_git_providers.Prelude.{◌≡◌, refl, ◌∙◌, Bool, false, Option, none, some, Str}
use go_git_providers.Errors.{Err}
use go_git_providers.Exec.{Result, ok, err, panic, out_of_fuel, Exec, attempt, pure, ◌>>=◌}
use go_git_providers.Gitprovider.Info.{RepositoryInfo, repository_equals, repository_validate_info}
use go_git_providers.Gitlab.Api.{Project}
use go_git_providers.Gitlab.Client.{update_project, edit_options}
use go_git_providers.Gitlab.Context.{ClientContext}
use go_git_providers.Gitlab.Project.{
  UserProject, get, set, update, overwrite, acted, repository_info_to_api_obj, or_kept,
}
use go_git_providers.Gitlab.Repositories.{reconcile_repository, apply_set}

-- A request for another default branch.
abbrev pub with_branch : Str → RepositoryInfo → RepositoryInfo
with_branch b req = record req { default_branch = some b }

-- How `Update` ends for the caller: the error, and the object that the server sent.
abbrev pub Ending : Type 0
Ending = Result (Option Project × Bool × Option Err)

-- The object is the server's where there is no error.
abbrev pub of_ending : Result (UserProject × Bool × Option Err) → Ending
of_ending (ok (u, b, none)) = ok (some u.p, b, none)
of_ending (ok (u, b, some e)) = ok (none, b, some e)
of_ending (err e) = err e
of_ending panic = panic
of_ending out_of_fuel = out_of_fuel

module _ {W : Type 0} where
  -- Two computations do the same to the server and end in the same way.
  abbrev pub SameEffect : (m n : Exec W (UserProject × Bool × Option Err)) → Type 0
  SameEffect m n = (w : W) → (of_ending (m w).0 ≡ of_ending (n w).0) × ((m w).1 ≡ (n w).1)

validate-branch :
    (req : RepositoryInfo) (b : Str)
    → repository_validate_info (with_branch b req) ≡ repository_validate_info req
unfolding repository_validate_info
validate-branch req b = refl

set-refused :
    (actual : UserProject) (req : RepositoryInfo) (b : Str) (x : Err)
    → repository_validate_info req ≡ some x
    → set (with_branch b req) actual ≡ (actual, some x)
unfolding set
set-refused actual req b x e = rw (validate-branch req b ∙ e, set) refl

set-accepted :
    (actual : UserProject) (req : RepositoryInfo) (b : Str)
    → repository_validate_info req ≡ none
    → set (with_branch b req) actual
      ≡ (record actual { p = repository_info_to_api_obj (with_branch b req) actual.p }, none)
unfolding set
set-accepted actual req b e = rw (validate-branch req b ∙ e, set) refl

module _ {W : Type 0} (c : ClientContext W) where
  -- `UpdateProject` makes the same call whatever the default branch.
  update_project-branch :
      (p : Project) (b : Str)
      → update_project c (record p { default_branch = b }) ≡ update_project c p
  unfolding update_project edit_options
  update_project-branch p b = refl

  -- What the server's answer makes of the two objects.
  answered-SameEffect :
      (u v : UserProject) (m : Exec W Project) (r : Result Project) (w x : W)
      → m w ≡ (r, x)
      → let f = λ (y : UserProject).
        attempt m >>= (λ a. pure (overwrite y a)) >>= (λ z. pure (acted z)) in
        (of_ending (f u w).0 ≡ of_ending (f v w).0) × ((f u w).1 ≡ (f v w).1)
  unfolding overwrite
  answered-SameEffect u v m (ok p) w x e = rw e (refl, refl)
  answered-SameEffect u v m (err p) w x e = rw e (refl, refl)
  answered-SameEffect u v m panic w x e = rw e (refl, refl)
  answered-SameEffect u v m out_of_fuel w x e = rw e (refl, refl)

  applied-SameEffect :
      (actual : UserProject) (req : RepositoryInfo) (a b : Str) (v : Option Err)
      → repository_validate_info req ≡ v
      → SameEffect
          (apply_set c (set (with_branch a req) actual))
          (apply_set c (set (with_branch b req) actual))
  unfolding apply_set update update_project edit_options repository_info_to_api_obj or_kept
  applied-SameEffect actual req a b (some x) e w =
      rw (set-refused actual req a x e) (rw (set-refused actual req b x e) (refl, refl))
  applied-SameEffect actual req a b none e w =
      let p = repository_info_to_api_obj req actual.p in
      rw (set-accepted actual req a e) (
        rw (set-accepted actual req b e) (
          answered-SameEffect (record actual { p = record p { default_branch = a } })
            (record actual { p = record p { default_branch = b } }) (update_project c p)
            (update_project c p w).0 w (update_project c p w).1 refl))

  -- Whatever default branch is asked for, as long as it makes the request differ from what is
  -- there, reconciling an existing repository does the same to the server and ends in the same way:
  -- the branch that was asked for is never sent.
  pub reconcile_repository-SameEffect :
      (actual : UserProject) (req : RepositoryInfo) (a b : Str)
      → repository_equals (with_branch a req) (get actual) ≡ false
      → repository_equals (with_branch b req) (get actual) ≡ false
      → SameEffect
          (reconcile_repository c actual (with_branch a req))
          (reconcile_repository c actual (with_branch b req))
  unfolding reconcile_repository
  reconcile_repository-SameEffect actual req a b h k w =
      rw h (rw k (applied-SameEffect actual req a b (repository_validate_info req) refl w))
