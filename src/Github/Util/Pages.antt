-- ===== src/Github/Util/Pages.antt =====
-- `allPages` against the pages that the server has.
use go_git_providers.Prelude.{
  ℕ, zero, suc, ◌≤◌, ◌≡◌, ◌≢◌, ap, ◌∙◌, false, List, ◌++◌, append_assoc, arith, ◌==◌, nat_eq,
}
use go_git_providers.Errors.{Err}
use go_git_providers.Exec.{ok, err}
use go_git_providers.Github.Api.{Listing}
use go_git_providers.Github.Util.{all_pages, handle_http_error}

module _ {W A : Type 0} (list : Listing W A) where
  -- From page `p` in the state `w`, the server answers `n` pages that make up `objs`, and is then
  -- in the state `v`.
  pub data HasPages : ℕ → ℕ → W → List A → W → Type 0 where
    last :
        {p : ℕ} {w v : W} {objs : List A} (page : List A × ℕ)
        → list p w ≡ (ok page, v)
        → page.1 ≡ 0
        → page.0 ≡ objs
        → HasPages 1 p w objs v
    more :
        {n p : ℕ} {w u v : W} {objs rest : List A} (page : List A × ℕ)
        → list p w ≡ (ok page, u)
        → page.1 ≢ 0
        → HasPages n page.1 u rest v
        → page.0 ++ rest ≡ objs
        → HasPages (suc n) p w objs v

  -- The same up to an error.
  pub data FailsWith : ℕ → ℕ → W → Err → W → Type 0 where
    now : {p : ℕ} {w v : W} {e : Err} → list p w ≡ (err e, v) → FailsWith 1 p w e v
    later :
        {n p : ℕ} {w u v : W} {e : Err} (page : List A × ℕ)
        → list p w ≡ (ok page, u)
        → page.1 ≢ 0
        → FailsWith n page.1 u e v
        → FailsWith (suc n) p w e v

  -- With fuel for as many pages as the server has, all its objects come back, in order, behind
  -- those collected before.
  pub all_pages-HasPages :
      (fuel : ℕ) (before : List A) {n p : ℕ} {w v : W} {objs : List A}
      → HasPages n p w objs v
      → n ≤ fuel
      → all_pages fuel list p before w ≡ (ok (before ++ objs), v)
  unfolding all_pages
  all_pages-HasPages zero before (last page e z k) h = elim h [ ]
  all_pages-HasPages zero before (more page e z r k) h = elim h [ ]
  all_pages-HasPages (suc fuel) before (last page e z k) h = rw e (rw z (rw k))
  all_pages-HasPages (suc fuel) before {v = v} (more {rest = rest} page e z r k) h =
      let t : (page.1 == 0) ≡ false = ground (arith, z) in
      rw e (
        rw t (
          all_pages-HasPages fuel (before ++ page.0) r (omega arith)
          ∙ ap (λ l. (ok l, v)) (append_assoc before page.0 rest ∙ ap (λ l. before ++ l) k)))

  -- Where a page fails and the fuel lasts up to it, the listing fails with that page's error,
  -- handled, and the pages before are lost.
  pub all_pages-FailsWith :
      (fuel : ℕ) (before : List A) {n p : ℕ} {w v : W} {e : Err}
      → FailsWith n p w e v
      → n ≤ fuel
      → all_pages fuel list p before w ≡ (err (handle_http_error e), v)
  unfolding all_pages
  all_pages-FailsWith zero before (now e) h = elim h [ ]
  all_pages-FailsWith zero before (later page e z r) h = elim h [ ]
  all_pages-FailsWith (suc fuel) before (now e) h = rw e
  all_pages-FailsWith (suc fuel) before (later page e z r) h =
      let t : (page.1 == 0) ≡ false = ground (arith, z) in
      rw e (rw t (all_pages-FailsWith fuel (before ++ page.0) r (omega arith)))
