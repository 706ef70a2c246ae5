-- ===== src/Stash/Http.antt =====
-- stash/client.go: requests, retries, and which replies are errors. What lies below, the retrying HTTP
-- client with its rate limiter, and what is used of `net/url` and `net/http`, is a record of
-- parameters.
pub mod Replies
use go_git_providers.Prelude.{
  ℕ, Bool, true, false, not, ◌&&◌, ◌||◌, Option, none, some, List, [], ◌∷◌, ◌++◌, Str, codes,
  is_empty, ◌==◌, leb, nat_eq, list_eq, if◌then◌else◌,
}
use go_git_providers.Errors.{Err, sentinel, wrap, unexpected_status_code, foreign, or_else}
use go_git_providers.Exec.{
  Result, ok, err, and_then, Exec, pure, Attempt, got, failed, attempt, ◌>>=◌,
}
use go_git_providers.Strings.{contains}

-- `http.Header` and `url.Values`, as the pairs in the order in which they are added.
abbrev pub Pairs : Type 0
Pairs = List (Str × Str)

-- `*http.Request`, by what the code sets; `url` is the text of its URL.
pub record HttpRequest : Type 0 where
  pub method : Str
  pub host : Str
  pub raw_path : Str
  pub path : Str
  pub raw_query : Str
  pub url : Str
  pub header : Pairs
  pub body : Option Str

-- `*http.Response`. `header` is `Header.Get`, and `body` what `io.ReadAll` returns.
pub record HttpResponse : Type 0 where
  pub status_code : ℕ
  pub status : Str
  pub header : Str → Str
  pub body : Attempt Str

-- `url.PathUnescape`, `Values.Encode`, `URL.String` of a host, a path and a query, `http.NewRequest` (which may refuse the method or the URL),
-- `limiter.Wait`, and `(*retryablehttp.Client).Do`. The limiter that the first call configures is
-- part of `wait`.
pub record Net (W : Type 0) : Type 0 where
  pub path_unescape : Str → Attempt Str
  pub encode : Pairs → Str
  pub show_url : Str → Str → Str → Str
  pub refused : HttpRequest → Option Err
  pub wait : Exec W Unit
  pub send : HttpRequest → Exec W HttpResponse

-- The part of `Client` that requests need; the path and host are those of `BaseURL`.
pub record RestClient (W : Type 0) : Type 0 where
  pub net : Net W
  pub base_host : Str
  pub base_path : Str
  pub header_fields : Pairs
  pub username : Str

-- `requestOptions`
pub record RequestOptions : Type 0 where
  pub body : Option Str
  pub header : Pairs
  pub query : Pairs

-- `requestOptions{}`, with the query that `NewRequest` puts for nil
abbrev pub no_request_options : RequestOptions
no_request_options = record { body = none; header = []; query = [] }

abbrev pub RequestOptionFunc : Type 0
RequestOptionFunc = RequestOptions → RequestOptions

-- `WithQuery`, `WithBody`, `WithHeader`; no caller passes nil
unfoldable pub with_query : Pairs → RequestOptionFunc
with_query query r = record r { query = query }

unfoldable pub with_body : Str → RequestOptionFunc
with_body body r = record r { body = some body }

unfoldable pub with_header : Pairs → RequestOptionFunc
with_header header r = record r { header = header }

-- the loop over the options
unfoldable pub apply_request_options : List RequestOptionFunc → RequestOptions → RequestOptions
apply_request_options [] r = r
apply_request_options (opt ∷ opts) r = apply_request_options opts (opt r)

abbrev pub get_method : Str
get_method = codes "GET"

abbrev pub post_method : Str
post_method = codes "POST"

abbrev pub put_method : Str
put_method = codes "PUT"

abbrev pub delete_method : Str
delete_method = codes "DELETE"

-- `result, err := f(); if err != nil { return wrapped }`
unfoldable pub or_fail {ℓ} :
    {A : Type 0} {B : Type ℓ} → (Err → Err) → Attempt A → (A → Result B) → Result B
or_fail f (failed e) k = err (f e)
or_fail f (got a) k = k a

-- What `http.NewRequest` returns.
unfoldable pub checked_request : Option Err → HttpRequest → Result HttpRequest
checked_request none r = ok r
checked_request (some e) r =
    err (wrap "failed create request for %s %s, %w" (r.method ∷ r.url ∷ []) e)

module _ {W : Type 0} (c : RestClient W) where
  -- The request behind `url.PathUnescape`.
  unfoldable pub build_request : Str → Str → RequestOptions → Str → HttpRequest
  build_request method path options unescaped = record {
    method = if is_empty method then get_method else method;
    host = c.base_host;
    raw_path = c.base_path ++ path;
    path = c.base_path ++ unescaped;
    raw_query = c.net.encode options.query;
    url = c.net.show_url c.base_host (c.base_path ++ path) (c.net.encode options.query);
    header = c.header_fields ++ options.header;
    body = options.body;
  }

  -- `(*Client).NewRequest`
  unfoldable pub new_request : Str → Str → List RequestOptionFunc → Result HttpRequest
  unfolding or_fail build_request apply_request_options checked_request
  new_request method path opts =
      or_fail (λ e. e) (c.net.path_unescape path)
        λ unescaped.
          let options = apply_request_options opts no_request_options in
          let request = build_request method path options unescaped in
          checked_request (c.net.refused request) request

-- What `Do` returns: the bytes with the response, or an error, which a response may accompany.
pub data Done : Type 0 where
  replied : Str → HttpResponse → Done
  gave_up : Option HttpResponse → Err → Done

-- The condition under which `Do` returns the bytes.
unfoldable pub is_accepted : Str → ℕ → Bool
is_accepted method status =
    status == 200
    || status == 201 && method == post_method
    || status == 204 && method == delete_method
    || status == 202 && method == delete_method
    || status == 204 && method == put_method
    || status == 400

unfoldable pub on_body : HttpRequest → HttpResponse → Attempt Str → Done
unfolding is_accepted
on_body request resp (failed e) = gave_up (some resp) e
on_body request resp (got bytes) =
    if is_accepted request.method resp.status_code
    then replied bytes resp
    else gave_up (some resp) (
        wrap "request %s %s returned status code: %s, %w"
          (request.method ∷ request.url ∷ resp.status ∷ []) (sentinel unexpected_status_code))

-- `Do` behind the request. Of a 404 the body is not read.
unfoldable pub on_response : HttpRequest → Attempt HttpResponse → Done
unfolding on_body
on_response request (failed e) = gave_up none e
on_response request (got resp) =
    if resp.status_code == 404 then replied [] resp else on_body request resp resp.body

module _ {W : Type 0} (c : RestClient W) where
  unfoldable pub after_wait : HttpRequest → Attempt (Unit {0}) → Exec W Done
  unfolding on_response
  after_wait request (failed e) = pure (gave_up none e)
  after_wait request (got _) = do a ← attempt (c.net.send request); pure (on_response request a)

  -- `(*Client).Do`
  unfoldable pub do_request : HttpRequest → Exec W Done
  unfolding after_wait
  do_request request = do a ← attempt (c.net.wait); after_wait request a

-- `retryHTTPCheck`: whether the request is to be sent again, and an error. The text of an error is
-- `Error()`; a nil response comes with an error only.
abbrev pub retryable_texts : List Str
retryable_texts =
    codes "connection refused"
    ∷ codes "http2: no cached connection was available"
    ∷ codes "net/http: TLS handshake timeout"
    ∷ codes "i/o timeout"
    ∷ codes "unexpected EOF"
    ∷ codes "Client.Timeout exceeded while awaiting headers"
    ∷ []

unfoldable pub contains_any : Str → List Str → Bool
unfolding contains
contains_any s [] = false
contains_any s (t ∷ ts) = contains s t || contains_any s ts

unfoldable pub check_reply : Bool → Option (Str × Err) → ℕ → Bool × Option Err
unfolding contains_any
check_reply disable_retries (some (message, e)) status =
    if contains_any message retryable_texts then (true, none) else (false, some e)
check_reply disable_retries none status =
    if not disable_retries && (status == 429 || leb 500 status) then (true, none) else (false, none)

unfoldable pub retry_http_check : Bool → Option Err → Option (Str × Err) → ℕ → Bool × Option Err
unfolding check_reply
retry_http_check disable_retries (some cancelled) failure status = (false, some cancelled)
retry_http_check disable_retries none failure status = check_reply disable_retries failure status
