-- ===== src/Github/OrgRepositories/Idle.antt =====
-- When `(*OrgRepositoriesClient).Reconcile` takes no action.
use go_git_providers.Prelude.{
  ◌≡◌, ◌≢◌, ◌↔◌, ◌∙◌, sym, subst, refl, Bool, true, false, Bool-cases, inl, inr, Option, none, some,
  List,
}
use go_git_providers.Errors.{Err, is_error, not_found}
use go_git_providers.Exec.{Result, ok, err, panic, out_of_fuel, Exec, attempt, pure, lift, ◌>>=◌}
use go_git_providers.Gitprovider.Info.{
  RepositoryInfo, repository_info, repository_equals, validate_and_default_info,
}
use go_git_providers.Gitprovider.Info.Laws.{repository_equals_iff}
use go_git_providers.Gitprovider.Options.{RepositoryCreateOption}
use go_git_providers.Gitprovider.Refs.{OrgRepositoryRef}
use go_git_providers.Github.Context.{ClientContext}
use go_git_providers.Github.Repository.{UserRepository, get, set, update}
use go_git_providers.Github.OrgRepositories.{
  Outcome, reconcile_with, reconcile_valid, reconcile_attempt, reconcile_repository, apply_set,
  created_outcome, org_get, org_create, org_reconcile,
}

module _ {W : Type 0} (c : ClientContext W) (ref : OrgRepositoryRef) (req : RepositoryInfo)
    (w : W) where
  -- The runs that take no action, by the object, the error and the state after them: the request is
  -- refused; the repository cannot be read, and not because it is missing; it is as requested; the
  -- request cannot be set on it.
  pub data Idle : Option UserRepository → Option Err → W → Type 0 where
    refused : (x : Err) → validate_and_default_info req ≡ err x → Idle none (some x) w
    unread :
        (req' : RepositoryInfo) (x : Err) (v : W)
        → validate_and_default_info req ≡ ok req'
        → org_get c ref w ≡ (err x, v)
        → is_error x not_found ≡ false
        → Idle none (some x) v
    as_requested :
        (req' : RepositoryInfo) (u : UserRepository) (v : W)
        → validate_and_default_info req ≡ ok req'
        → org_get c ref w ≡ (ok u, v)
        → get u ≡ req'
        → Idle (some u) none v
    unset :
        (req' : RepositoryInfo) (u u' : UserRepository) (x : Err) (v : W)
        → validate_and_default_info req ≡ ok req'
        → org_get c ref w ≡ (ok u, v)
        → get u ≢ req'
        → set req' u ≡ (u', some x)
        → Idle (some u') (some x) v

-- From the end of a run to another description of it.
moved :
    {W : Type 0} (P : Option UserRepository → Option Err → W → Type 0)
    {o o' : Option UserRepository} {e e' : Option Err} {v v' : W}
    → P o e v
    → ◌≡◌ {A = Result Outcome × W} (ok (o, false, e), v) (ok (o', false, e'), v')
    → P o' e' v'
moved P {o = o} {o' = o'} {e = e} {e' = e'} {v = v} {v' = v'} p h =
    let a : o ≡ o' = cc in
    let b : e ≡ e' = cc in
    let d : v ≡ v' = cc in
    subst (λ x. P x e' v') a (subst (λ y. P o y v') b (subst (λ z. P o e z) d p))

-- The two steps behind `update` in `Reconcile`.
abbrev with_action :
    {W : Type 0} → UserRepository × Option Err → Exec W (UserRepository × Bool × Option Err)
with_action a = pure (a.0, true, a.1)

abbrev as_outcome : {W : Type 0} → UserRepository × Bool × Option Err → Exec W Outcome
as_outcome b = pure (some b.0, b.1, b.2)

module _ {W : Type 0} {o : Option UserRepository} {e : Option Err} {v : W} where
  created :
      (r : Result UserRepository × W) (x : W)
      → (attempt (λ _. r) >>= λ a. pure (created_outcome a)) x ≢ (ok (o, false, e), v)
  unfolding created_outcome
  created (ok u, y) x h = cc
  created (err z, y) x h = cc
  created (panic, y) x h = cc
  created (out_of_fuel, y) x h = cc

  updated :
      (r : Result (UserRepository × Option Err) × W) (x : W)
      → (((λ _. r) >>= with_action) >>= as_outcome) x ≢ (ok (o, false, e), v)
  updated (ok u, y) x h = cc
  updated (err z, y) x h = cc
  updated (panic, y) x h = cc
  updated (out_of_fuel, y) x h = cc

module _ {W : Type 0} (c : ClientContext W) (ref : OrgRepositoryRef) (req : RepositoryInfo)
    (opts : List RepositoryCreateOption) (w : W) where
  Idle-end :
      {o : Option UserRepository} {e : Option Err} {v : W}
      → Idle c ref req w o e v
      → org_reconcile c ref req opts w ≡ (ok (o, false, e), v)
  unfolding org_reconcile reconcile_with reconcile_valid reconcile_attempt reconcile_repository
      apply_set
  Idle-end (refused x m) = rw m
  Idle-end (unread req' x y m g n) = rw (m, g, n)
  Idle-end (as_requested req' u y m g k) =
      let q = (repository_equals_iff req' (get u)).1 (sym k) in rw (m, g, q)
  Idle-end (unset req' u u' x y m g n s) = elim (Bool-cases (repository_equals req' (get u))) [
    | inl q ↦ absurd (n (sym ((repository_equals_iff req' (get u)).0 q)))
    | inr q ↦ rw (m, g, q, s)
  ]

module _ {W : Type 0} (c : ClientContext W) (ref : OrgRepositoryRef) (req : RepositoryInfo)
    (opts : List RepositoryCreateOption) (w : W) {o : Option UserRepository} {e : Option Err}
    {v : W} where
  set-Idle :
      (req' : RepositoryInfo) (u : UserRepository) (x : W) (q : UserRepository × Option Err)
      → validate_and_default_info req ≡ ok req'
      → org_get c ref w ≡ (ok u, x)
      → get u ≢ req'
      → set req' u ≡ q
      → (apply_set c q >>= as_outcome) x ≡ (ok (o, false, e), v)
      → Idle c ref req w o e v
  unfolding apply_set
  set-Idle req' u x (u', none) m g n s h = absurd (updated (update c u' x) x h)
  set-Idle req' u x (u', some z) m g n s h =
      moved (Idle c ref req w) (unset req' u u' z x m g n s) h

  read-Idle :
      (req' : RepositoryInfo) (r : Result UserRepository × W)
      → validate_and_default_info req ≡ ok req'
      → org_get c ref w ≡ r
      → (attempt (λ _. r) >>= reconcile_attempt c (org_create c ref req' opts) req') w
        ≡ (ok (o, false, e), v)
      → Idle c ref req w o e v
  unfolding reconcile_attempt reconcile_repository
  read-Idle req' (panic, x) m g h = cc
  read-Idle req' (out_of_fuel, x) m g h = cc
  read-Idle req' (err z, x) m g h = elim (Bool-cases (is_error z not_found)) [
    | inl y ↦ absurd (created (org_create c ref req' opts x) x (rw y at h))
    | inr n ↦ moved (Idle c ref req w) (unread req' z x m g n) (rw n at h)
  ]
  read-Idle req' (ok u, x) m g h = elim (Bool-cases (repository_equals req' (get u))) [
    | inl y ↦
        moved (Idle c ref req w)
          (as_requested req' u x m g (sym ((repository_equals_iff req' (get u)).0 y))) (rw y at h)
    | inr n ↦
        set-Idle req' u x (set req' u) m g
          (λ k.
            let q = (repository_equals_iff req' (get u)).1 (sym k) in
            let z : true ≡ false = sym q ∙ n in cc)
          refl (rw n at h)
  ]

  valid-Idle :
      (r : Result RepositoryInfo)
      → validate_and_default_info req ≡ r
      → (attempt (lift r)
            >>= reconcile_valid c (org_get c ref) (λ req'. org_create c ref req' opts))
          w
        ≡ (ok (o, false, e), v)
      → Idle c ref req w o e v
  unfolding reconcile_valid
  valid-Idle (ok req') m h = read-Idle req' (org_get c ref w) m refl h
  valid-Idle (err x) m h = moved (Idle c ref req w) (refused x m) h
  valid-Idle panic m h = cc
  valid-Idle out_of_fuel m h = cc

  -- `(*OrgRepositoriesClient).Reconcile` takes no action exactly where the request is refused, the
  -- repository cannot be read and not because it is missing, it is as requested, or the request
  -- cannot be set on it. The object and the error are then those of that case, and the state is the
  -- one before the run for a request that is refused, else the one after reading the repository.
  pub org_reconcile-Idle_iff :
      (org_reconcile c ref req opts w ≡ (ok (o, false, e), v)) ↔ Idle c ref req w o e v
  unfolding org_reconcile reconcile_with
  org_reconcile-Idle_iff =
      (valid-Idle (validate_and_default_info req) refl, Idle-end c ref req opts w)
