-- ===== src/Gitprovider/ParseUrl/RoundTrip.antt =====
-- Parsing the URL that a reference prints gives the reference back.
use go_git_providers.Prelude.{
  ◌≡◌, refl, sym, ap, ◌∙◌, false, List, [], ◌∷◌, ◌++◌, Str, codes, slash, is_empty, All, arith,
  append_assoc, list_beq,
}
use go_git_providers.Exec.{ok, and_then}
use go_git_providers.Strings.{join, trim_suffix}
use go_git_providers.Strings.Laws.{Avoids, trim_suffix-append}
use go_git_providers.Gitprovider.Url.{
  UrlParser, UrlLaws, IsHost, is_path_byte, https_url, get_domain_url,
}
use go_git_providers.Gitprovider.Refs.{
  UserRef, OrganizationRef, OrgRepositoryRef, organization_identity, organization_string,
  org_repository_string, user_string, org_repository_ref,
}
use go_git_providers.Gitprovider.Refs.Clone.{get_clone_url}
use go_git_providers.Gitprovider.Enums.Transport
use go_git_providers.Gitprovider.ParseUrl.{
  parse_url, parse_organization_url, parse_user_url, parse_org_repository_url,
}
use go_git_providers.Gitprovider.ParseUrl.Parts.{
  IsName, IsPath-append, join-IsPath, any_empty-names, path_parts-join, join-concat,
  split_last-concat,
}

-- An organization whose names can all stand in a URL, and that carries no key.
pub record IsPlain (o : OrganizationRef) : Type 0 where
  pub host : IsHost o.domain
  pub names : All IsName (o.organization ∷ o.sub_organizations)
  pub no_key : o.key ≡ []

names-concat : (ps : List Str) (q : Str) → All IsName ps → IsName q → All IsName (ps ++ q ∷ [])
names-concat [] q h n = (n, tt)
names-concat (p ∷ ps) q h n = (h.0, names-concat ps q h.1 n)

no_slash-append : (s t : Str) → Avoids slash s → Avoids slash t → Avoids slash (s ++ t)
no_slash-append [] t h k = k
no_slash-append (c ∷ s) t h k = (h.0, no_slash-append s t h.1 k)

is_empty-append : (s t : Str) → is_empty s ≡ false → is_empty (s ++ t) ≡ false
is_empty-append [] t h = cc
is_empty-append (c ∷ s) t h = refl

IsName-git : (s : Str) → IsName s → IsName (s ++ codes ".git")
unfolding is_path_byte
IsName-git s n = record {
  not_empty = is_empty-append s _ n.not_empty;
  plain = IsPath-append s _ n.plain (refl, (refl, (refl, (refl, tt))));
  no_slash = no_slash-append s _ n.no_slash (omega arith);
}

regroup : (a b c d : Str) → ((a ++ b) ++ c) ++ d ≡ a ++ (b ++ (c ++ d))
regroup a b c d = simp append_assoc

module _ (parse : UrlParser) (laws : UrlLaws parse) where
  -- A plain host gets the scheme put in front of it.
  pub get_domain_url-host :
      (d : Str) → IsHost d → get_domain_url parse d ≡ ok (codes "https://" ++ d)
  unfolding get_domain_url list_beq
  get_domain_url-host d h = let (u, e, s) = laws.parse_host d h in rw e (rw s)

  parse_url-names :
      (host p : Str) (ps : List Str)
      → IsHost host
      → All IsName (p ∷ ps)
      → parse_url parse (codes "https://" ++ (host ++ (slash ∷ join (p ∷ ps) (slash ∷ []))))
        ≡ ok (https_url host (slash ∷ join (p ∷ ps) (slash ∷ [])), p ∷ ps)
  unfolding parse_url list_beq
  parse_url-names host p ps h names =
      rw (laws.parse_https host (join (p ∷ ps) (slash ∷ [])) h (join-IsPath (p ∷ ps) names))
        (rw (path_parts-join p ps names, any_empty-names (p ∷ ps) names))

  parse_names :
      (host p : Str) (ps : List Str)
      → IsHost host
      → All IsName (p ∷ ps)
      → parse_organization_url parse
          (codes "https://" ++ (host ++ (slash ∷ join (p ∷ ps) (slash ∷ []))))
        ≡ ok (record { domain = host; organization = p; key = []; sub_organizations = ps })
  unfolding parse_organization_url
  parse_names host p ps h names = rw (parse_url-names host p ps h names)

  -- With a parser that keeps the laws of `url.Parse`, the printed URL of an organization, whatever
  -- its nesting, parses back to the organization, where the host is plain, all names are non-empty
  -- and plain, and no key is set.
  pub parse-organization_string :
      (o : OrganizationRef)
      → IsPlain o
      → and_then (organization_string parse o) (parse_organization_url parse) ≡ ok o
  unfolding organization_string organization_identity
  parse-organization_string o h = rw (get_domain_url-host o.domain h.host) (
      parse_names o.domain o.organization o.sub_organizations h.host h.names
      ∙ ap (λ k. ok (record o { key = k })) (sym h.no_key))

  -- With a parser that keeps the laws of `url.Parse`, the printed URL of a user at a plain host
  -- with a non-empty, plain login parses back to the user.
  pub parse-user_string :
      (u : UserRef)
      → IsHost u.domain
      → IsName u.user_login
      → and_then (user_string parse u) (parse_user_url parse) ≡ ok u
  unfolding user_string parse_user_url join
  parse-user_string u h n =
      rw (get_domain_url-host u.domain h) (rw (parse_names u.domain u.user_login [] h (n, tt)))

  parse_repository_names :
      (host p : Str) (ps : List Str) (q : Str)
      → IsHost host
      → All IsName (p ∷ ps)
      → IsName q
      → parse_org_repository_url parse
          (codes "https://" ++ (host ++ (slash ∷ (join (p ∷ ps) (slash ∷ []) ++ (slash ∷ q)))))
        ≡ ok (record {
          organization_ref = record {
            domain = host;
            organization = p;
            key = [];
            sub_organizations = ps;
          };
          repository_name = trim_suffix q (codes ".git");
          slug = [];
        })
  unfolding parse_org_repository_url
  parse_repository_names host p ps q h names n = rw (← join-concat p ps q) (
      rw (parse_names host p (ps ++ q ∷ []) h (names-concat (p ∷ ps) q names n))
        (rw (split_last-concat ps q)))

  -- With a parser that keeps the laws of `url.Parse`, the HTTPS clone URL of a repository in an
  -- organization, which ends in `.git`, parses back to the repository, where the host is plain,
  -- all names are non-empty and plain, and neither a key nor a slug is set.
  pub parse-clone_url :
      (r : OrgRepositoryRef)
      → IsPlain r.organization_ref
      → IsName r.repository_name
      → r.slug ≡ []
      → and_then
          (get_clone_url (org_repository_ref parse r) Transport.https)
          (parse_org_repository_url parse)
        ≡ ok r
  unfolding get_clone_url org_repository_string organization_string organization_identity list_beq
  parse-clone_url r h n s =
      let o = r.organization_ref in
      rw (get_domain_url-host o.domain h.host) (
        rw
          (regroup o.domain (slash ∷ organization_identity o) (slash ∷ r.repository_name)
            (codes ".git"))
          (parse_repository_names o.domain o.organization o.sub_organizations _ h.host h.names
              (IsName-git r.repository_name n)
            ∙ rw (trim_suffix-append r.repository_name (codes ".git"))
                (ground (arith, h.no_key, s))))
