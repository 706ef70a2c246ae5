-- ===== src/Github/DeployKey/Find.antt =====
-- Looking a deploy key up by its title.
use go_git_providers.Prelude.{
  ◌≡◌, ◌≢◌, refl, ◌∙◌, false, Bool-cases, inl, inr, some, List, [], ◌∷◌, ◌++◌, Str, All, ◌==◌,
  ==_iff, ==_refl, nat_eq, list_eq,
}
use go_git_providers.Errors.{sentinel, not_found}
use go_git_providers.Exec.{ok, err}
use go_git_providers.Github.Api.{Key}
use go_git_providers.Github.DeployKey.{find_key}

-- A listed key with another title.
abbrev pub Titled : Str → Key → Type 0
Titled name k = (t : Str) × (k.title ≡ some t) × (t ≢ name)

pub find_key-skips :
    (name : Str) (before after : List Key)
    → All (Titled name) before
    → find_key name (before ++ after) ≡ find_key name after
unfolding find_key
find_key-skips name [] after h = refl
find_key-skips name (k ∷ before) after h =
    let (t, e, ne) = h.0 in
    let q : (t == name) ≡ false = elim (Bool-cases (t == name)) [
      | inl y ↦ absurd (ne ((==_iff t name).0 y))
      | inr n ↦ n
    ] in
    rw e (rw q (find_key-skips name before after h.1))

-- The first key with the title is found, behind any keys that have other titles.
pub find_key-first :
    (name : Str) (before after : List Key) (k : Key)
    → All (Titled name) before
    → k.title ≡ some name
    → find_key name (before ++ (k ∷ after)) ≡ ok k
unfolding find_key
find_key-first name before after k h e =
    find_key-skips name before (k ∷ after) h ∙ rw e (rw (==_refl name))

-- Where no key has the title, the answer is `ErrNotFound`.
pub find_key-none :
    (name : Str) (ks : List Key)
    → All (Titled name) ks
    → find_key name ks ≡ err (sentinel not_found)
unfolding find_key
find_key-none name [] h = refl
find_key-none name (k ∷ ks) h =
    find_key-skips name (k ∷ []) ks (h.0, tt) ∙ find_key-none name ks h.1
