-- ===== src/Stash/Http/Replies.antt =====
-- stash/client.go: what `NewRequest` and `Do` do when the server answers.
use go_git_providers.Prelude.{
  ◌≡◌, ◌↔◌, ◌⊎◌, inl, inr, refl, sym, ap, ◌∙◌, ℕ, Bool, true, false, ◌||◌, Option, none, some, List,
  [], ◌∷◌, ◌++◌, Str, is_empty, arith, ◌==◌, ==_iff, nat_eq, list_eq, Bool-cases,
}
use go_git_providers.Errors.{Err, wrap, sentinel, unexpected_status_code}
use go_git_providers.Exec.{Attempt, got, failed, ok}
use go_git_providers.Stash.Http.{
  HttpRequest, HttpResponse, RequestOptionFunc, RequestOptions, RestClient, new_request, or_fail,
  build_request, checked_request, apply_request_options, do_request, after_wait, on_response,
  on_body, is_accepted, no_request_options, replied, gave_up, delete_method, post_method,
  put_method,
}

module _ {W : Type 0} (c : RestClient W) where
  -- A request can be made, the limiter lets it pass, and the server answers it.
  pub record Answered (method path : Str) (opts : List RequestOptionFunc) (w : W)
      (resp : HttpResponse) (v : W) : Type 0 where
    pub request : HttpRequest
    pub made : new_request c method path opts ≡ ok request
    pub between : W
    pub waited : c.net.wait w ≡ (ok tt, between)
    pub sent : c.net.send request between ≡ (ok resp, v)

  pub do_request-sent :
      {w u v : W} (request : HttpRequest) {resp : HttpResponse}
      → c.net.wait w ≡ (ok tt, u)
      → c.net.send request u ≡ (ok resp, v)
      → do_request c request w ≡ (ok (on_response request (got resp)), v)
  unfolding do_request after_wait on_response
  do_request-sent request h k = rw (h, k)

  checked_method :
      (o : Option Err) (r request : HttpRequest) → checked_request o r ≡ ok request → request ≡ r
  unfolding checked_request
  checked_method none r request h = cc
  checked_method (some e) r request h = cc

  build-method :
      (method path : Str) (options : RequestOptions) (unescaped : Str)
      → is_empty method ≡ false
      → (build_request c method path options unescaped).method ≡ method
  unfolding build_request
  build-method method path options unescaped n = rw n

  made_from :
      (method path : Str) (opts : List RequestOptionFunc) (request : HttpRequest) (a : Attempt Str)
      → is_empty method ≡ false
      → c.net.path_unescape path ≡ a
      → new_request c method path opts ≡ ok request
      → request.method ≡ method
  unfolding new_request or_fail
  made_from method path opts request (failed e) n k h = cc
  made_from method path opts request (got unescaped) n k h =
      let options = apply_request_options opts (record { body = none; header = []; query = [] }) in
      let r = build_request c method path options unescaped in
      let t : new_request c method path opts ≡ checked_request (c.net.refused r) r = rw k refl in
      ap (λ q. q.method) (checked_method (c.net.refused r) r request (sym t ∙ h))
      ∙ build-method method path options unescaped n

  made_header :
      (method path : Str) (opts : List RequestOptionFunc) (request : HttpRequest) (a : Attempt Str)
      → c.net.path_unescape path ≡ a
      → new_request c method path opts ≡ ok request
      → request.header ≡ c.header_fields ++ (apply_request_options opts no_request_options).header
  unfolding new_request or_fail build_request
  made_header method path opts request (failed e) k h = cc
  made_header method path opts request (got unescaped) k h =
      let r =
        build_request c method path (apply_request_options opts no_request_options) unescaped in
      let t : new_request c method path opts ≡ checked_request (c.net.refused r) r = rw k refl in
      ap (λ q. q.header) (checked_method (c.net.refused r) r request (sym t ∙ h))

  -- The request has the headers of the client, and then those of the options.
  pub new_request-header :
      (method path : Str) (opts : List RequestOptionFunc) (request : HttpRequest)
      → new_request c method path opts ≡ ok request
      → request.header ≡ c.header_fields ++ (apply_request_options opts no_request_options).header
  new_request-header method path opts request h =
      made_header method path opts request (c.net.path_unescape path) refl h

  -- The request has the method that was asked for.
  pub new_request-method :
      (method path : Str) (opts : List RequestOptionFunc) (request : HttpRequest)
      → is_empty method ≡ false
      → new_request c method path opts ≡ ok request
      → request.method ≡ method
  new_request-method method path opts request n h =
      made_from method path opts request (c.net.path_unescape path) n refl h

-- The status codes of a reply that `Do` reports as a success, to a request with this method.
abbrev pub Succeeds : Str → ℕ → Type 0
Succeeds method status =
    (status ≡ 200)
    ⊎ (status ≡ 400)
    ⊎ (status ≡ 404)
    ⊎ ((status ≡ 201) × (method ≡ post_method))
    ⊎ ((status ≡ 202) × (method ≡ delete_method))
    ⊎ ((status ≡ 204) × ((method ≡ delete_method) ⊎ (method ≡ put_method)))

is_accepted_iff :
    (method : Str) (status : ℕ)
    → (status == 404 || is_accepted method status ≡ true) ↔ Succeeds method status
unfolding is_accepted
is_accepted_iff method status = (
  λ h.
      ground
        (arith, ==_iff method post_method, ==_iff method delete_method, ==_iff method put_method),
  λ h.
      ground
        (arith, ==_iff method post_method, ==_iff method delete_method, ==_iff method put_method),
)

pub Succeeds-cases :
    (method : Str) (status : ℕ) → Succeeds method status ⊎ (¬ Succeeds method status)
Succeeds-cases method status = elim (Bool-cases (status == 404 || is_accepted method status)) [
  | inl z ↦ inl ((is_accepted_iff method status).0 z)
  | inr z ↦ inr (λ k. absurd (ground (arith, z, (is_accepted_iff method status).1 k)))
]

or_right : (a b : Bool) → a ≡ false → a || b ≡ true → b ≡ true
or_right a b h k = ground arith

not_true : (a b : Bool) → ¬ (a || b ≡ true) → (a ≡ false) × (b ≡ false)
not_true a b h = (ground arith, ground arith)

-- What `Do` makes of a reply whose body can be read.
pub on_response-replied :
    (request : HttpRequest) (resp : HttpResponse) (bytes : Str)
    → resp.body ≡ got bytes
    → Succeeds request.method resp.status_code
    → (s : Str) × (on_response request (got resp) ≡ replied s resp)
unfolding on_response on_body
on_response-replied request resp bytes h k = elim (Bool-cases (resp.status_code == 404)) [
  | inl z ↦ ([], rw z)
  | inr z ↦
      let a = or_right _ _ z ((is_accepted_iff request.method resp.status_code).1 k) in
      (bytes, rw (z, h, a))
]

pub on_response-gave_up :
    (request : HttpRequest) (resp : HttpResponse) (bytes : Str)
    → resp.body ≡ got bytes
    → ¬ Succeeds request.method resp.status_code
    → (e : Err) × (on_response request (got resp) ≡ gave_up (some resp) e)
unfolding on_response on_body
on_response-gave_up request resp bytes h k =
    let (z, a) =
      not_true (resp.status_code == 404) (is_accepted request.method resp.status_code)
        (λ t. k ((is_accepted_iff request.method resp.status_code).0 t)) in
    (
      wrap "request %s %s returned status code: %s, %w"
          (request.method ∷ request.url ∷ resp.status ∷ []) (sentinel unexpected_status_code),
      rw (z, h, a),
    )

-- The bytes of a reply with the status code 200 or 400, to a request of any method.
pub on_response-read :
    (request : HttpRequest) (resp : HttpResponse) (bytes : Str)
    → resp.body ≡ got bytes
    → (resp.status_code ≡ 200) ⊎ (resp.status_code ≡ 400)
    → on_response request (got resp) ≡ replied bytes resp
unfolding on_response on_body is_accepted
on_response-read request resp bytes h (inl k) = rw (k, h)
on_response-read request resp bytes h (inr k) = rw (k, h) (ground arith)
