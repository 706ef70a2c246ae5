-- ===== src/Stash/Services.antt =====
-- The services of the package stash: what their methods have in common, one module per service.
pub mod Repositories
pub mod Permissions
pub mod Projects
pub mod Users
pub mod Groups
pub mod Branches
pub mod Commits
pub mod DeployKeys
pub mod PullRequests
pub mod Replies
use go_git_providers.Prelude.{
  ℕ, String, Bool, true, false, Option, none, some, List, [], ◌∷◌, ◌++◌, map, Str, codes, ◌==◌,
  nat_eq, if◌then◌else◌,
}
use go_git_providers.Errors.{Err, wrap, sentinel, foreign, or_else, stash_not_found}
use go_git_providers.Exec.{
  Result, ok, err, Attempt, got, failed, check, Exec, lift, fail, pure, ◌>>=◌, ◌>>◌,
}
use go_git_providers.Stash.Http.{
  HttpResponse, Pairs, RequestOptionFunc, RestClient, with_body, Done, replied, gave_up, or_fail,
  new_request, do_request,
}
use go_git_providers.Stash.Types.{Encoded, encoded, unsupported, Decoder, Page, Session, session_of}

-- The formats of the errors of one method: the request cannot be made, the call fails, the body
-- cannot be decoded.
pub record Texts : Type 0 where
  pub creation : String
  pub call : String
  pub decoding : String

-- The bytes that `Do` returns, and the response.
pub record Reply : Type 0 where
  pub bytes : Str
  pub resp : HttpResponse

unfoldable pub reply_of : (Option HttpResponse → Err → Err) → Done → Result Reply
reply_of failure (replied bytes resp) = ok (record { bytes = bytes; resp = resp })
reply_of failure (gave_up resp e) = err (failure resp e)

-- `if resp != nil && resp.StatusCode == http.StatusNotFound { return ErrNotFound }`
unfoldable pub not_found_guard : HttpResponse → Option Err
not_found_guard resp = if resp.status_code == 404 then some (sentinel stash_not_found) else none

-- `if resp != nil && resp.StatusCode == http.StatusBadRequest { return fmt.Errorf(…, resp.Status) }`
unfoldable pub bad_request_guard : Str → HttpResponse → Option Err
bad_request_guard text resp =
    if resp.status_code == 400 then some (foreign (text ++ resp.status)) else none

-- The first guard, then the second.
unfoldable pub both_guards : Str → HttpResponse → Option Err
unfolding not_found_guard bad_request_guard
both_guards text resp = or_else (not_found_guard resp) (bad_request_guard text resp)

abbrev pub no_guard : HttpResponse → Option Err
no_guard resp = none

-- `json.Unmarshal`, with its error wrapped
unfoldable pub decode : {A : Type 0} → String → Decoder A → A → Str → Result A
unfolding or_fail
decode text decoder init bytes = or_fail (wrap text []) (decoder bytes init) ok

-- `for _, r := range list.GetX() { r.Session.set(resp) }`
unfoldable pub on_values : {A : Type 0} → (Session → A → A) → Session → Page A → Page A
on_values set session page = record page { values = map (set session) page.values }

abbrev pub json_header : Pairs
json_header = (codes "Content-Type", codes "application/json") ∷ []

-- `body, err := marshallBody(b)`, where the error is reported by its text
unfoldable pub marshalled : Str → Encoded → Result Str
marshalled text (encoded s) = ok s
marshalled text (unsupported reason) = err (foreign (text ++ reason))

-- `x, err := m(); if err != nil { return f(err) }`
unfoldable pub map_error : {A : Type 0} → (Err → Err) → Result A → Result A
map_error f (err e) = err (f e)
map_error f r = r

unfoldable pub on_error : {W A : Type 0} → (Err → Err) → Exec W A → Exec W A
unfolding map_error
on_error f m w = let (r, w') = m w in (map_error f r, w')

module _ {W : Type 0} (c : RestClient W) where
  -- `NewRequest` and `Do`, given what becomes of an error of the latter.
  unfoldable pub exchange_with :
      String → (Option HttpResponse → Err → Err) → Str → Str → List RequestOptionFunc → Exec W Reply
  unfolding reply_of map_error new_request do_request
  exchange_with creation failure method path opts = do
    request ← lift (map_error (wrap creation []) (new_request c method path opts))
    done ← do_request c request
    lift (reply_of failure done)

  unfoldable pub exchange : Texts → Str → Str → List RequestOptionFunc → Exec W Reply
  unfolding exchange_with
  exchange texts = exchange_with texts.creation (λ resp e. wrap texts.call [] e)

  -- A method whose result is decoded from the body into `init`, once the guards on the status have
  -- let the response pass, and is given the session of the response by `set`.
  unfoldable pub fetch :
      {A : Type 0}
      → Texts
      → Decoder A
      → A
      → (HttpResponse → Option Err)
      → (Session → A → A)
      → Str
      → Str
      → List RequestOptionFunc
      → Exec W A
  unfolding exchange decode session_of
  fetch texts decoder init guard set method path opts = do
    reply ← exchange texts method path opts
    lift (check (guard reply.resp))
    a ← lift (decode texts.decoding decoder init reply.bytes)
    pure (set (session_of reply.resp) a)

  -- A method that returns an error only.
  unfoldable pub run :
      Texts → (HttpResponse → Option Err) → Str → Str → List RequestOptionFunc → Exec W Unit
  unfolding exchange
  run texts guard method path opts = do
    reply ← exchange texts method path opts
    lift (check (guard reply.resp))
