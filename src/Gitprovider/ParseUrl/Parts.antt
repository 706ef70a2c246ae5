-- ===== src/Gitprovider/ParseUrl/Parts.antt =====
-- The path of a URL and its parts.
use mathlib.Core.List.{reverse-append, reverse-reverse}
use go_git_providers.Prelude.{
  ℕ, ◌≡◌, ◌≢◌, refl, sym, ap, ◌∙◌, subst, true, false, some, List, [], ◌∷◌, ◌++◌, Str, slash,
  is_empty, All, ◌==◌, nat_eq, list_eq, arith, append_assoc,
}
use go_git_providers.Strings.{join, trim_suffix}
use go_git_providers.Strings.Laws.{Avoids, split-join}
use go_git_providers.Gitprovider.Url.{is_path_byte, IsPath}
use go_git_providers.Gitprovider.ParseUrl.{any_empty, path_parts, split_last}

-- A name that can stand between two slashes of a URL and stands for itself.
pub record IsName (s : Str) : Type 0 where
  pub not_empty : is_empty s ≡ false
  pub plain : IsPath s
  pub no_slash : Avoids slash s

pub IsPath-append : (xs ys : Str) → IsPath xs → IsPath ys → IsPath (xs ++ ys)
IsPath-append [] ys h k = k
IsPath-append (x ∷ xs) ys h k = (h.0, IsPath-append xs ys h.1 k)

pub IsPath-slash : is_path_byte slash ≡ true
unfolding is_path_byte
IsPath-slash = refl

pub join-IsPath : (ps : List Str) → All IsName ps → IsPath (join ps (slash ∷ []))
unfolding join
join-IsPath [] h = tt
join-IsPath (p ∷ []) h = h.0.plain
join-IsPath (p ∷ q ∷ ps) h = IsPath-append p _ h.0.plain (IsPath-slash, join-IsPath (q ∷ ps) h.1)

-- A text that ends in a byte other than the slash.
record EndsPlain (s : Str) : Type 0 where
  init : Str
  last : ℕ
  shape : s ≡ init ++ last ∷ []
  last_ne : last ≢ slash

name-EndsPlain : (s : Str) → is_empty s ≡ false → Avoids slash s → EndsPlain s
name-EndsPlain [] e h = cc
name-EndsPlain (c ∷ []) e h = record { init = []; last = c; shape = refl; last_ne = h.0 }
name-EndsPlain (c ∷ d ∷ s) e h =
    let r = name-EndsPlain (d ∷ s) refl h.1 in
    record {
      init = c ∷ r.init;
      last = r.last;
      shape = ap (λ t. c ∷ t) r.shape;
      last_ne = r.last_ne;
    }

append-EndsPlain : (s t : Str) → EndsPlain t → EndsPlain (s ++ t)
append-EndsPlain s t r = record {
  init = s ++ r.init;
  last = r.last;
  shape = ap (λ x. s ++ x) r.shape ∙ sym (append_assoc s r.init (r.last ∷ []));
  last_ne = r.last_ne;
}

join-EndsPlain :
    (p : Str) (ps : List Str) → All IsName (p ∷ ps) → EndsPlain (join (p ∷ ps) (slash ∷ []))
unfolding join
join-EndsPlain p [] h = name-EndsPlain p h.0.not_empty h.0.no_slash
join-EndsPlain p (q ∷ ps) h =
    append-EndsPlain p _ (append-EndsPlain (slash ∷ []) _ (join-EndsPlain q ps h.1))

trim_suffix-concat :
    (t : Str) (d : ℕ) → d ≢ slash → trim_suffix (t ++ d ∷ []) (slash ∷ []) ≡ t ++ d ∷ []
unfolding trim_suffix
trim_suffix-concat t d h =
    let e : (d == slash) ≡ false = ground arith in
    rw reverse-append (rw e (rw reverse-append at (reverse-reverse (t ++ d ∷ []))))

trim_suffix-EndsPlain : (s : Str) → EndsPlain s → trim_suffix s (slash ∷ []) ≡ s
trim_suffix-EndsPlain s r =
    subst (λ x. trim_suffix x (slash ∷ []) ≡ x) (sym r.shape)
      (trim_suffix-concat r.init r.last r.last_ne)

All-Avoids : (ps : List Str) → All IsName ps → All (Avoids slash) ps
All-Avoids [] h = tt
All-Avoids (p ∷ ps) h = (h.0.no_slash, All-Avoids ps h.1)

pub any_empty-names : (ps : List Str) → All IsName ps → any_empty ps ≡ false
unfolding any_empty
any_empty-names [] h = refl
any_empty-names (p ∷ ps) h = rw (h.0.not_empty) (any_empty-names ps h.1)

-- The parts of the path that names make up are those names.
pub path_parts-join :
    (p : Str) (ps : List Str)
    → All IsName (p ∷ ps)
    → path_parts (slash ∷ join (p ∷ ps) (slash ∷ [])) ≡ p ∷ ps
unfolding path_parts
path_parts-join p ps h =
    rw (trim_suffix-EndsPlain _ (join-EndsPlain p ps h))
      (split-join p ps slash (All-Avoids (p ∷ ps) h))

pub join-concat :
    (p : Str) (ps : List Str) (q : Str)
    → join ((p ∷ ps) ++ q ∷ []) (slash ∷ []) ≡ join (p ∷ ps) (slash ∷ []) ++ (slash ∷ q)
unfolding join
join-concat p [] q = refl
join-concat p (r ∷ ps) q = rw (join-concat r ps q) (sym (append_assoc p _ _))

pub split_last-concat {ℓ} :
    {A : Type ℓ} (xs : List A) (y : A) → split_last (xs ++ y ∷ []) ≡ some (xs, y)
unfolding split_last
split_last-concat [] y = refl
split_last-concat (x ∷ xs) y = rw (split_last-concat xs y)
