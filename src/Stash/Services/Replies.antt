-- ===== src/Stash/Services/Replies.antt =====
-- What the methods of the services return for the replies of a server.
use go_git_providers.Prelude.{
  ◌≡◌, ◌↔◌, ◌⊎◌, inl, inr, refl, ℕ, false, Option, none, some, List, [], ◌∷◌, Str, String, is_empty,
  arith, ==_iff, nat_eq, list_eq,
}
use go_git_providers.Errors.{Err, wrap, sentinel, stash_not_found}
use go_git_providers.Exec.{got, ok, err, out_of_fuel}
use go_git_providers.Stash.Http.{
  HttpResponse, RequestOptionFunc, RestClient, on_response, or_fail, with_query, get_method,
  post_method, delete_method,
}
use go_git_providers.Stash.Http.Replies.{
  Answered, do_request-sent, new_request-method, Succeeds, Succeeds-cases, on_response-replied,
  on_response-gave_up, on_response-read,
}
use go_git_providers.Stash.Types.{
  Codecs, Decoder, Session, session_of, Page, PagingOptions, StashRepository, empty_page,
}
use go_git_providers.Stash.Paging.{add_paging, first_page}
use go_git_providers.Stash.Paging.Complete.{all_pages-never}
use go_git_providers.Stash.Services.{
  Texts, reply_of, decode, exchange_with, exchange, fetch, run, on_values, not_found_guard,
  map_error,
}
use go_git_providers.Stash.Services.Repositories.{delete, list, all, set_session, repositories_path}

Succeeds-delete :
    (status : ℕ)
    → Succeeds delete_method status
      ↔ ((status ≡ 200) ⊎ (status ≡ 202) ⊎ (status ≡ 204) ⊎ (status ≡ 400) ⊎ (status ≡ 404))
Succeeds-delete status = (λ h. ground (arith, ==_iff delete_method post_method), λ h. ground arith)

abbrev delete_texts : Texts
delete_texts = record {
  creation = "delete repositoryrequest creation failed: %w";
  call = "delete repository failed: %w";
  decoding = "";
}

module _ {W : Type 0} (c : RestClient W) where
  pub exchange_with-Answered :
      (creation : String) (failure : Option HttpResponse → Err → Err) (method path : Str)
      (opts : List RequestOptionFunc) {w v : W} {resp : HttpResponse}
      (a : Answered c method path opts w resp v)
      → exchange_with c creation failure method path opts w
        ≡ (reply_of failure (on_response a.request (got resp)), v)
  unfolding exchange_with map_error
  exchange_with-Answered creation failure method path opts a =
      rw (a.made, do_request-sent c a.request a.waited a.sent)

  -- The body of a 404 is not read.
  pub exchange-missing :
      (texts : Texts) (method path : Str) (opts : List RequestOptionFunc) {w v : W}
      {resp : HttpResponse} (a : Answered c method path opts w resp v)
      → resp.status_code ≡ 404
      → exchange c texts method path opts w ≡ (ok (record { bytes = []; resp = resp }), v)
  unfolding exchange reply_of on_response
  exchange-missing texts method path opts a h =
      rw (exchange_with-Answered texts.creation (λ resp e. wrap texts.call [] e) method path opts a)
        (rw h)

  -- A reply that `Do` accepts.
  pub exchange-replied :
      (texts : Texts) (method path : Str) (opts : List RequestOptionFunc) {w v : W}
      {resp : HttpResponse} {bytes : Str} (a : Answered c method path opts w resp v)
      → is_empty method ≡ false
      → resp.body ≡ got bytes
      → Succeeds method resp.status_code
      → (s : Str) × (exchange c texts method path opts w
          ≡ (ok (record { bytes = s; resp = resp }), v))
  unfolding exchange reply_of
  exchange-replied texts method path opts {resp = resp} {bytes = bytes} a n h k =
      let m = new_request-method c method path opts a.request n a.made in
      let (s, e) = on_response-replied a.request resp bytes h (rw m k) in
      (
        s,
        rw
            (exchange_with-Answered texts.creation (λ resp e. wrap texts.call [] e) method path opts
              a)
            (rw e),
      )

  -- A reply that it refuses.
  pub exchange-gave_up :
      (texts : Texts) (method path : Str) (opts : List RequestOptionFunc) {w v : W}
      {resp : HttpResponse} {bytes : Str} (a : Answered c method path opts w resp v)
      → is_empty method ≡ false
      → resp.body ≡ got bytes
      → ¬ Succeeds method resp.status_code
      → (e : Err) × (exchange c texts method path opts w ≡ (err e, v))
  unfolding exchange reply_of
  exchange-gave_up texts method path opts {resp = resp} {bytes = bytes} a n h k =
      let m = new_request-method c method path opts a.request n a.made in
      let (x, e) = on_response-gave_up a.request resp bytes h (rw m k) in
      (
        wrap texts.call [] x,
        rw
            (exchange_with-Answered texts.creation (λ resp e. wrap texts.call [] e) method path opts
              a)
            (rw e),
      )

  -- A 404 is reported as `ErrNotFound`, whatever the body.
  pub fetch-not_found :
      {A : Type 0} (texts : Texts) (decoder : Decoder A) (init : A)
      (guard : HttpResponse → Option Err) (set : Session → A → A) (method path : Str)
      (opts : List RequestOptionFunc) {w v : W} {resp : HttpResponse}
      (a : Answered c method path opts w resp v)
      → resp.status_code ≡ 404
      → guard resp ≡ some (sentinel stash_not_found)
      → fetch c texts decoder init guard set method path opts w
        ≡ (err (sentinel stash_not_found), v)
  unfolding fetch
  fetch-not_found texts decoder init guard set method path opts a h k =
      rw (exchange-missing texts method path opts a h, k)

  -- `(*RepositoriesService).Delete` on a reply whose body can be read: it reports no error exactly for
  -- the status codes 200, 202 and 204, and also for 400, bad request, and 404, not found.
  pub delete_iff :
      (j : Codecs) (project_key repo_slug : Str) (w v : W) (resp : HttpResponse) (bytes : Str)
      → Answered c delete_method (repositories_path project_key (repo_slug ∷ [])) [] w resp v
      → resp.body ≡ got bytes
      → (delete c j project_key repo_slug w ≡ (ok tt, v)) ↔ (
          (resp.status_code ≡ 200)
          ⊎ (resp.status_code ≡ 202)
          ⊎ (resp.status_code ≡ 204)
          ⊎ (resp.status_code ≡ 400)
          ⊎ (resp.status_code ≡ 404))
  unfolding delete run
  delete_iff j project_key repo_slug w v resp bytes a h =
      elim (Succeeds-cases delete_method resp.status_code) [
        | inl k ↦
            let (s, e) =
              exchange-replied delete_texts delete_method
                (repositories_path project_key (repo_slug ∷ [])) [] a refl h k in
            (λ _. (Succeeds-delete resp.status_code).0 k, λ _. rw e)
        | inr k ↦
            let (x, e) =
              exchange-gave_up delete_texts delete_method
                (repositories_path project_key (repo_slug ∷ [])) [] a refl h k in
            (
              λ t. let q : delete c j project_key repo_slug w ≡ (err x, v) = rw e in cc,
              λ y. absurd (k ((Succeeds-delete resp.status_code).1 y)),
            )
      ]

  exchange-read :
      (texts : Texts) (method path : Str) (opts : List RequestOptionFunc) {w v : W}
      {resp : HttpResponse} {bytes : Str} (a : Answered c method path opts w resp v)
      → (resp.status_code ≡ 200) ⊎ (resp.status_code ≡ 400)
      → resp.body ≡ got bytes
      → exchange c texts method path opts w ≡ (ok (record { bytes = bytes; resp = resp }), v)
  unfolding exchange reply_of
  exchange-read texts method path opts {resp = resp} {bytes = bytes} a s h =
      rw (exchange_with-Answered texts.creation (λ resp e. wrap texts.call [] e) method path opts a)
        (rw (on_response-read a.request resp bytes h s))

  -- A reply that is accepted and passes the guard is decoded.
  pub fetch-decoded :
      {A : Type 0} (texts : Texts) (decoder : Decoder A) (init : A)
      (guard : HttpResponse → Option Err) (set : Session → A → A) (method path : Str)
      (opts : List RequestOptionFunc) {w v : W} {resp : HttpResponse} {bytes : Str} (x : A)
      (a : Answered c method path opts w resp v)
      → (resp.status_code ≡ 200) ⊎ (resp.status_code ≡ 400)
      → resp.body ≡ got bytes
      → guard resp ≡ none
      → decoder bytes init ≡ got x
      → fetch c texts decoder init guard set method path opts w ≡ (ok (set (session_of resp) x), v)
  unfolding fetch decode or_fail
  fetch-decoded texts decoder init guard set method path opts x a s h g d =
      rw (exchange-read texts method path opts a s h, g, d)

  -- A server answers every request for the repositories of a project with one and the same 400, bad
  -- request, whose body decodes to a page that does not say that it is the last, which one without
  -- that field does: then `(*RepositoriesService).All` asks for ever, whatever fuel it is given, in
  -- place of an error.
  pub all-never :
      (j : Codecs) (project_key : Str) (resp : HttpResponse) (bytes : Str)
      (page : Page StashRepository)
      → ((opts : PagingOptions) (w : W)
          → (v : W) × Answered c get_method
              (repositories_path project_key [])
              (with_query (add_paging [] (some opts)) ∷ [])
              w
              resp
              v)
      → resp.status_code ≡ 400
      → resp.body ≡ got bytes
      → j.repositories bytes empty_page ≡ got page
      → page.paging.is_last_page ≡ false
      → (fuel : ℕ) (w : W) → (all c j fuel project_key w).0 ≡ out_of_fuel
  unfolding all list on_values not_found_guard
  all-never j project_key resp bytes page answers s h d z fuel w =
      let g : not_found_guard resp ≡ none = ground (arith, s) in
      all_pages-never (λ opts. list c j project_key (some opts))
        (λ opts u.
          let (v, a) = answers opts u in
          (
            on_values set_session (session_of resp) page,
            v,
            fetch-decoded _ j.repositories empty_page not_found_guard (on_values set_session)
                get_method (repositories_path project_key [])
                (with_query (add_paging [] (some opts)) ∷ []) page a (inr s) h g d,
            z,
          ))
        fuel first_page [] w
