-- ===== src/Stash/Paging.antt =====
-- The pagination of stash/resources.go, and of stash/users.go and stash/deploy_keys.go how queries
-- and paths are built.
pub mod Complete
use go_git_providers.Prelude.{
  ℕ, zero, suc, Bool, true, false, List, [], ◌∷◌, ◌++◌, Str, codes, slash, ◌==◌, nat_eq,
  if◌then◌else◌,
}
use go_git_providers.Strings.{join, itoa}
use go_git_providers.Exec.{Exec, Result, out_of_fuel, lift, pure, ◌>>=◌}
use go_git_providers.Stash.Http.{Pairs}
use go_git_providers.Stash.Types.{Page, PagingOptions}
use go_git_providers.Prelude.{Option, none, some}

abbrev pub per_page_limit : ℕ
per_page_limit = 25

abbrev pub stash_uri_prefix : Str
stash_uri_prefix = codes "/rest/api/1.0"

abbrev pub stash_uri_keys : Str
stash_uri_keys = codes "/rest/keys/1.0"

-- `newURI`
unfoldable pub new_uri : List Str → Str
unfolding join
new_uri elements = join (stash_uri_prefix ∷ elements) (slash ∷ [])

-- `newKeysURI`
unfoldable pub new_keys_uri : List Str → Str
unfolding join
new_keys_uri elements = join (stash_uri_keys ∷ elements) (slash ∷ [])

-- `if n != 0 { query.Add(key, strconv.Itoa(n)) }`
unfoldable pub add_number : Str → ℕ → Pairs → Pairs
unfolding itoa
add_number key n query = if n == 0 then query else query ++ (key, itoa n) ∷ []

-- `addPaging`; `none` is nil
unfoldable pub add_paging : Pairs → Option PagingOptions → Pairs
unfolding add_number
add_paging query none = query
add_paging query (some opts) =
    add_number (codes "start") opts.start (add_number (codes "limit") opts.limit query)

module _ {W A : Type 0} (fetch : PagingOptions → Exec W (Page A)) where
  -- `allPages` with the closure of an `All` method, which appends the values of each page to
  -- `acc`. The fuel bounds the number of pages.
  unfoldable pub all_pages : ℕ → PagingOptions → List A → Exec W (List A)
  all_pages zero opts acc = lift out_of_fuel
  all_pages (suc fuel) opts acc = do
    page ← fetch opts
    let rest : Exec W (List A) =
        all_pages fuel (record opts { start = page.paging.next_page_start }) (acc ++ page.values)
    if page.paging.is_last_page then pure (acc ++ page.values) else rest

-- The options that every `All` starts from.
abbrev pub first_page : PagingOptions
first_page = record { start = 0; limit = per_page_limit }
