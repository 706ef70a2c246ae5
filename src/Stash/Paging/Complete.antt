-- ===== src/Stash/Paging/Complete.antt =====
-- `allPages` of stash/resources.go: which pages it asks for, and what it returns.
use go_git_providers.Prelude.{
  ◌≡◌, refl, sym, ap, ◌∙◌, subst, ℕ, zero, suc, ◌≤◌, true, false, ◌↔◌, inl, inr, List, [], ◌++◌,
  append_assoc, arith, Bool-cases,
}
use go_git_providers.Exec.{Exec, Result, ok, err, panic, out_of_fuel}
use go_git_providers.Stash.Types.{Page, PagingOptions}
use go_git_providers.Stash.Paging.{all_pages}

module _ {W A : Type 0} (fetch : PagingOptions → Exec W (Page A)) where
  -- A server answers with a chain of pages: the next one begins where the page before says, and
  -- only the last one says that it is the last. The index counts the pages; the objects are those
  -- of all pages, in order.
  pub data Pages : ℕ → PagingOptions → W → List A → W → Type 0 where
    last :
        {opts : PagingOptions} {w v : W} {objs : List A} (page : Page A)
        → fetch opts w ≡ (ok page, v)
        → page.paging.is_last_page ≡ true
        → page.values ≡ objs
        → Pages 1 opts w objs v
    more :
        {n : ℕ} {opts : PagingOptions} {w u v : W} {objs rest : List A} (page : Page A)
        → fetch opts w ≡ (ok page, u)
        → page.paging.is_last_page ≡ false
        → Pages n (record opts { start = page.paging.next_page_start }) u rest v
        → page.values ++ rest ≡ objs
        → Pages (suc n) opts w objs v

  -- With fuel for as many pages as the server has, the objects of all come back.
  all_pages_complete :
      (fuel : ℕ) (acc : List A) {n : ℕ} {opts : PagingOptions} {w v : W} {objs : List A}
      → Pages n opts w objs v
      → n ≤ fuel
      → all_pages fetch fuel opts acc w ≡ (ok (acc ++ objs), v)
  unfolding all_pages
  all_pages_complete zero acc (last page e z k) h = elim h [ ]
  all_pages_complete zero acc (more page e z r k) h = elim h [ ]
  all_pages_complete (suc fuel) acc (last page e z k) h = rw e (rw z (rw k))
  all_pages_complete (suc fuel) acc {v = v} (more {rest = rest} page e z r k) h = rw e (
      rw z (
        all_pages_complete fuel (acc ++ page.values) r (omega arith)
        ∙ ap (λ l. (ok l, v)) (append_assoc acc page.values rest ∙ ap (λ l. acc ++ l) k)))

  last_step :
      (fuel : ℕ) (acc : List A) {opts : PagingOptions} {w u : W} (page : Page A)
      → fetch opts w ≡ (ok page, u)
      → page.paging.is_last_page ≡ true
      → all_pages fetch (suc fuel) opts acc w ≡ (ok (acc ++ page.values), u)
  unfolding all_pages
  last_step fuel acc page e z = rw e (rw z)

  more_step :
      (fuel : ℕ) (acc : List A) {opts : PagingOptions} {w u : W} (page : Page A)
      → fetch opts w ≡ (ok page, u)
      → page.paging.is_last_page ≡ false
      → all_pages fetch (suc fuel) opts acc w
        ≡ all_pages fetch fuel
            (record opts { start = page.paging.next_page_start })
            (acc ++ page.values)
            u
  unfolding all_pages
  more_step fuel acc page e z = rw e (rw z)

  -- What a listing that succeeded tells of the server.
  abbrev Listed : ℕ → PagingOptions → W → List A → List A → W → Type 0
  Listed fuel opts w acc objs v =
      (n : ℕ) × (rest : List A) × (n ≤ fuel) × Pages n opts w rest v × (acc ++ rest ≡ objs)

  more-Listed :
      (fuel : ℕ) (acc : List A) {opts : PagingOptions} {w u : W} (v : W) (objs : List A)
      (page : Page A)
      → fetch opts w ≡ (ok page, u)
      → page.paging.is_last_page ≡ false
      → Listed fuel
          (record opts { start = page.paging.next_page_start })
          u
          (acc ++ page.values)
          objs
          v
      → Listed (suc fuel) opts w acc objs v
  more-Listed fuel acc v objs page e z (n, rest, h, pages, k) = (
    suc n,
    page.values ++ rest,
    omega arith,
    more page e z pages refl,
    sym (append_assoc acc page.values rest) ∙ k,
  )

  sound_from :
      (fuel : ℕ) (acc : List A) (opts : PagingOptions) (w : W) {v : W} {objs : List A}
      (r : Result (Page A) × W)
      → ((next : PagingOptions) (more_objs : List A) (u : W)
          → all_pages fetch fuel next more_objs u ≡ (ok objs, v)
          → Listed fuel next u more_objs objs v)
      → fetch opts w ≡ r
      → all_pages fetch (suc fuel) opts acc w ≡ (ok objs, v)
      → Listed (suc fuel) opts w acc objs v
  unfolding all_pages
  sound_from fuel acc opts w (ok page, u) ih e h = elim (Bool-cases page.paging.is_last_page) [
    | inl z ↦
        let k = sym (last_step fuel acc page e z) ∙ h in
        (1, page.values, omega arith, last page (e ∙ ap (λ r. (ok page, r.1)) k) z refl, cc)
    | inr z ↦ more-Listed fuel acc _ _ page e z (ih _ _ _ (sym (more_step fuel acc page e z) ∙ h))
  ]
  sound_from fuel acc opts w (err x, u) ih e h = cc
  sound_from fuel acc opts w (panic, u) ih e h = cc
  sound_from fuel acc opts w (out_of_fuel, u) ih e h = cc

  all_pages_sound :
      (fuel : ℕ) (acc : List A) (opts : PagingOptions) (w : W) {v : W} {objs : List A}
      → all_pages fetch fuel opts acc w ≡ (ok objs, v)
      → Listed fuel opts w acc objs v
  unfolding all_pages
  all_pages_sound zero acc opts w h = cc
  all_pages_sound (suc fuel) acc opts w h =
      sound_from fuel acc opts w (fetch opts w) (λ n m u. all_pages_sound fuel m n u) refl h

  -- `allPages` returns objects exactly when the server answers with a chain of pages, from the
  -- options that it is called with up to a page that says that it is the last, of no more pages than
  -- the fuel: and they are then the objects of all those pages, in order, none left out or twice.
  pub all_pages-iff-Pages :
      (fuel : ℕ) (opts : PagingOptions) (w v : W) (objs : List A)
      → (all_pages fetch fuel opts [] w ≡ (ok objs, v))
        ↔ ((n : ℕ) × (n ≤ fuel) × Pages n opts w objs v)
  all_pages-iff-Pages fuel opts w v objs = (
    λ h.
        let (n, rest, k, pages, e) = all_pages_sound fuel [] opts w h in
        (n, k, subst (λ l. Pages n opts w l v) e pages),
    λ p. let (n, k, pages) = p in all_pages_complete fuel [] pages k,
  )

  -- A server that never says that a page is the last is asked for ever: no fuel is enough.
  pub all_pages-never :
      ((opts : PagingOptions) (w : W)
        → (page : Page A) × (v : W) × (fetch opts w ≡ (ok page, v))
          × (page.paging.is_last_page ≡ false))
      → (fuel : ℕ) (opts : PagingOptions) (acc : List A) (w : W)
      → (all_pages fetch fuel opts acc w).0 ≡ out_of_fuel
  unfolding all_pages
  all_pages-never h zero opts acc w = refl
  all_pages-never h (suc fuel) opts acc w =
      let (page, v, e, z) = h opts w in
      ap (λ r. r.0) (more_step fuel acc page e z) ∙ all_pages-never h fuel _ _ v
