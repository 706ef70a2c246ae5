-- ===== src/Github/NewClient/Destructive.antt =====
-- A client can delete repositories only if it was built to do so.
use go_git_providers.Prelude.{
  ℕ, ◌≡◌, sym, ap, subst, ◌∙◌, Bool, true, false, Option, none, List, [], ◌∷◌, map, Str, All,
}
use go_git_providers.Errors.{Err, is_error, destructive_call_disallowed}
use go_git_providers.Exec.{Result, ok, err, and_then-eq-ok}
use go_git_providers.Gitprovider.Url.{UrlParser}
use go_git_providers.Gitprovider.ClientOptions.{
  ClientOptions, make_client_options, apply_to_client_options,
}
use go_git_providers.Gitprovider.ClientOptions.Chain.{is_true, get_transport_chain}
use go_git_providers.Gitprovider.ClientOptions.Once.{Once, make_client_options_iff}
use go_git_providers.Gitprovider.ClientOptions.Transport.{
  Transports, build_client_from_transport_chain,
}
use go_git_providers.Github.Client.{delete_repo}
use go_git_providers.Github.Client.Listings.{delete_repo-disallowed}
use go_git_providers.Github.Context.{ClientContext}
use go_git_providers.Github.NewClient.{GithubClients, choose_client, from_options, new_client}

-- Settings that leave a field out keep its value.
Once-unset :
    {A B : Type 0} (f : B → Option A) (t r : Option A) (xs : List B)
    → All (λ x. f x ≡ none) xs
    → Once t (map f xs) r
    → t ≡ r
Once-unset f t r [] h o = o
Once-unset f t r (x ∷ xs) h o = Once-unset f t r xs h.1 (subst (λ z. Once t (z ∷ map f xs) r) h.0 o)

abbrev destructive_of : {W : Type 0} → Result (ClientContext W) → Bool
destructive_of (ok c) = c.destructive_actions
destructive_of _ = false

module _ {R L W : Type 0} (t : Transports R) (g : GithubClients R W) (parse : UrlParser)
    (fuel : ℕ) where
  from_options-destructive :
      (opts : ClientOptions R L) (c : ClientContext W)
      → from_options t g parse fuel opts ≡ ok c
      → c.destructive_actions ≡ is_true opts.enable_destructive_api_calls
  unfolding from_options
  from_options-destructive opts c h =
      let (http, e, k) =
        and_then-eq-ok (build_client_from_transport_chain (get_transport_chain t opts)) _ h in
      let (p, e', k') = and_then-eq-ok (choose_client g opts.domain http) _ k in
      sym (ap destructive_of k')

  -- A client built from option structs none of which mentions destructive calls refuses to delete
  -- any repository with `ErrDestructiveCallDisallowed`, and sends nothing.
  pub new_client-disallows :
      (opts : List (ClientOptions R L)) (c : ClientContext W) (owner repo : Str) (w : W)
      → new_client t g parse fuel (map apply_to_client_options opts) ≡ ok c
      → All (λ o. o.enable_destructive_api_calls ≡ none) opts
      → (e : Err) × (delete_repo c owner repo w ≡ (err e, w))
        × (is_error e destructive_call_disallowed ≡ true)
  unfolding new_client is_true
  new_client-disallows opts c owner repo w h unset =
      let (made, e, k) =
        and_then-eq-ok (make_client_options (map apply_to_client_options opts)) _ h in
      let once = (make_client_options_iff opts made).0 e in
      let n : made.enable_destructive_api_calls ≡ none =
        sym (Once-unset (λ o. o.enable_destructive_api_calls) none _ opts unset once.destructive) in
      delete_repo-disallowed c owner repo w (from_options-destructive made c k ∙ ap is_true n)
