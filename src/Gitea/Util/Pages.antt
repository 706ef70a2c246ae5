-- ===== src/Gitea/Util/Pages.antt =====
-- `allPages` against the pages that the server has, failures included.
use go_git_providers.Prelude.{
  ℕ, zero, suc, ◌+◌, ◌≤◌, ◌≡◌, refl, sym, ap, ◌∙◌, true, false, none, List, [], ◌++◌, append_assoc,
  append-nil, is_empty, arith,
}
use go_git_providers.Exec.{ok, out_of_fuel}
use go_git_providers.Gitea.Api.{Page, PageCall, ClientContext}
use go_git_providers.Gitea.Util.{pages_from, after_page, unless_failed, is_last}

module _ {W A : Type 0} (c : ClientContext W) (list : PageCall W A) where
  -- From page `p` in the state `w`, `n` calls give `objs` and lead to the state `v`. The listing
  -- ends at a page without objects, whether its call failed or not, or at one without a link.
  pub data Chain : ℕ → ℕ → W → List A → W → Type 0 where
    quiet :
        {p : ℕ} {w v : W} (r : Page A) → list p w ≡ (ok r, v) → r.objects ≡ [] → Chain 1 p w [] v
    last :
        {p : ℕ} {w v : W} (r : Page A)
        → list p w ≡ (ok r, v)
        → is_empty r.objects ≡ false
        → r.error ≡ none
        → is_last c r.response ≡ true
        → Chain 1 p w r.objects v
    more :
        {n p : ℕ} {w u v : W} {rest : List A} (r : Page A)
        → list p w ≡ (ok r, u)
        → is_empty r.objects ≡ false
        → r.error ≡ none
        → is_last c r.response ≡ false
        → Chain n (p + 1) u rest v
        → Chain (suc n) p w (r.objects ++ rest) v

  -- With fuel for the chain, its objects come back behind those collected before, and no error.
  pub pages_from-Chain :
      (fuel : ℕ) (before : List A) {n p : ℕ} {w v : W} {objs : List A}
      → Chain n p w objs v
      → n ≤ fuel
      → pages_from c fuel list p before w ≡ (ok (before ++ objs), v)
  unfolding pages_from after_page unless_failed
  pages_from-Chain zero before (quiet r e z) h = elim h [ ]
  pages_from-Chain zero before (last r e z f l) h = elim h [ ]
  pages_from-Chain zero before (more r e z f l t) h = elim h [ ]
  pages_from-Chain (suc fuel) before {v = v} (quiet r e z) h =
      rw e (rw z (ap (λ l. (ok l, v)) (sym (append-nil before))))
  pages_from-Chain (suc fuel) before (last r e z f l) h = rw e (rw z (rw f (rw l refl)))
  pages_from-Chain (suc fuel) before {v = v} (more {rest = rest} r e z f l t) h = rw e (
      rw z (
        rw f (
          rw l (
            pages_from-Chain fuel (before ++ r.objects) t (omega arith)
            ∙ ap (λ x. (ok x, v)) (append_assoc before r.objects rest)))))

  -- Where every page is one and the same, has objects and a link, the listing does not end, however
  -- much fuel it is given.
  pub pages_from-endless :
      (fuel p : ℕ) (before : List A) (w : W) (r : Page A)
      → ((q : ℕ) → list q w ≡ (ok r, w))
      → is_empty r.objects ≡ false
      → r.error ≡ none
      → is_last c r.response ≡ false
      → pages_from c fuel list p before w ≡ (out_of_fuel, w)
  unfolding pages_from after_page unless_failed
  pages_from-endless zero p before w r e z f l = refl
  pages_from-endless (suc fuel) p before w r e z f l =
      rw (e p)
        (rw z (rw f (rw l (pages_from-endless fuel (p + 1) (before ++ r.objects) w r e z f l))))
