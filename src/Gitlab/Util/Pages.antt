-- ===== src/Gitlab/Util/Pages.antt =====
-- The loop that the functions `all…Pages` share, against the pages that the server has.
use go_git_providers.Prelude.{
  ℕ, zero, suc, ◌≤◌, ◌≡◌, ap, ◌∙◌, false, List, ◌++◌, append_assoc, arith, ◌==◌, nat_eq,
}
use go_git_providers.Errors.{Err}
use go_git_providers.Exec.{ok, err}
use go_git_providers.Github.Api.{Listing}
use go_git_providers.Github.Util.Pages.{HasPages, last, more, FailsWith, now, later}
use go_git_providers.Gitlab.Util.{all_pages}

module _ {W A : Type 0} (on_error : Err → Err) (list : Listing W A) where
  -- With fuel for as many pages as the server has, all its objects come back, in order, behind
  -- those collected before.
  pub gitlab_pages-HasPages :
      (fuel : ℕ) (before : List A) {n p : ℕ} {w v : W} {objs : List A}
      → HasPages list n p w objs v
      → n ≤ fuel
      → all_pages on_error fuel list p before w ≡ (ok (before ++ objs), v)
  unfolding all_pages
  gitlab_pages-HasPages zero before (last page e z k) h = elim h [ ]
  gitlab_pages-HasPages zero before (more page e z r k) h = elim h [ ]
  gitlab_pages-HasPages (suc fuel) before (last page e z k) h = rw e (rw z (rw k))
  gitlab_pages-HasPages (suc fuel) before {v = v} (more {rest = rest} page e z r k) h =
      let t : (page.1 == 0) ≡ false = ground (arith, z) in
      rw e (
        rw t (
          gitlab_pages-HasPages fuel (before ++ page.0) r (omega arith)
          ∙ ap (λ l. (ok l, v)) (append_assoc before page.0 rest ∙ ap (λ l. before ++ l) k)))

  -- Where a page fails and the fuel lasts up to it, the loop fails with what the function makes of
  -- that page's error, and the pages before are lost.
  pub gitlab_pages-FailsWith :
      (fuel : ℕ) (before : List A) {n p : ℕ} {w v : W} {e : Err}
      → FailsWith list n p w e v
      → n ≤ fuel
      → all_pages on_error fuel list p before w ≡ (err (on_error e), v)
  unfolding all_pages
  gitlab_pages-FailsWith zero before (now e) h = elim h [ ]
  gitlab_pages-FailsWith zero before (later page e z r) h = elim h [ ]
  gitlab_pages-FailsWith (suc fuel) before (now e) h = rw e
  gitlab_pages-FailsWith (suc fuel) before (later page e z r) h =
      let t : (page.1 == 0) ≡ false = ground (arith, z) in
      rw e (rw t (gitlab_pages-FailsWith fuel (before ++ page.0) r (omega arith)))
