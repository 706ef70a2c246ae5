-- ===== src/Gitprovider/Url.antt =====
-- gitprovider/util.go, and what the code uses of the standard package `net/url`. `url.Parse` is a
-- parameter of the model: its type, and the documented behaviour on plain texts as `UrlLaws`.
use go_git_providers.Prelude.{
  ℕ, ◌≡◌, Bool, true, ◌&&◌, ◌||◌, not, [], ◌∷◌, ◌++◌, Str, codes, slash, All, ◌==◌, nat_eq, list_eq,
  leb, if◌then◌else◌,
}
use go_git_providers.Exec.{Result, ok, panic, Attempt, got, failed}

-- `*url.URL`; `user` is `u.User.String()`.
pub record Url : Type 0 where
  pub scheme : Str
  pub host : Str
  pub path : Str
  pub fragment : Str
  pub raw_query : Str
  pub user : Str

-- `url.Parse`
abbrev pub UrlParser : Type 0
UrlParser = Str → Attempt Url

abbrev within : ℕ → ℕ → ℕ → Bool
within lo hi c = leb lo c && leb c hi

-- A byte of a plain host name: a letter, a digit, `-` or `.`.
unfoldable pub is_host_byte : ℕ → Bool
is_host_byte c =
    within b'a' b'z' c || within b'A' b'Z' c || within b'0' b'9' c || c == b'-' || c == b'.'

-- A byte of a path that stands for itself: an unreserved one, or the slash.
unfoldable pub is_path_byte : ℕ → Bool
unfolding is_host_byte
is_path_byte c = is_host_byte c || c == b'_' || c == b'~' || c == slash

abbrev pub IsHost : Str → Type 0
IsHost = All (λ c. is_host_byte c ≡ true)

abbrev pub IsPath : Str → Type 0
IsPath = All (λ c. is_path_byte c ≡ true)

abbrev pub https_url : Str → Str → Url
https_url host path = record {
  scheme = codes "https";
  host = host;
  path = path;
  fragment = [];
  raw_query = [];
  user = [];
}

-- What the code relies on: a bare host has no scheme, and a plain HTTPS URL is taken apart at the
-- first slash behind its host.
pub record UrlLaws (parse : UrlParser) : Type 0 where
  pub parse_host : (host : Str) → IsHost host → (u : Url) × (parse host ≡ got u) × (u.scheme ≡ [])
  pub parse_https :
      (host path : Str)
      → IsHost host
      → IsPath path
      → parse (codes "https://" ++ (host ++ (slash ∷ path))) ≡ got (https_url host (slash ∷ path))

-- `parsedURL.Scheme != "https" && parsedURL.Scheme != "http"`
unfoldable pub lacks_scheme : Url → Bool
lacks_scheme u = not (u.scheme == codes "https") && not (u.scheme == codes "http")

unfoldable pub with_scheme : Str → Attempt Url → Result Str
unfolding lacks_scheme
with_scheme d (failed e) = panic
with_scheme d (got u) = ok (if lacks_scheme u then codes "https://" ++ d else d)

-- `GetDomainURL`: the error of `url.Parse` is dropped, and the URL that comes with it is nil.
unfoldable pub get_domain_url : UrlParser → Str → Result Str
unfolding with_scheme
get_domain_url parse d = with_scheme d (parse d)
