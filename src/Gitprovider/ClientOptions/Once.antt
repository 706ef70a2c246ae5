-- ===== src/Gitprovider/ClientOptions/Once.antt =====
-- `MakeClientOptions` on option structs: each field is configured at most once.
use go_git_providers.Prelude.{
  ◌≡◌, refl, All, subst, false, ◌↔◌, Option, none, some, List, [], ◌∷◌, map, Str, is_empty, arith,
  String,
}
use go_git_providers.Exec.{ok, and_then-eq-ok}
use go_git_providers.Gitprovider.ClientOptions.{
  ClientOptions, set_once, set_domain, apply_to_client_options, apply_options, make_client_options,
  no_options,
}

-- From the value `t`, the settings `xs` configure a field at most once, and it ends as `r`.
abbrev pub Once : {A : Type 0} → Option A → List (Option A) → Option A → Type 0
Once t [] r = t ≡ r
Once t (none ∷ xs) r = Once t xs r
Once none (some a ∷ xs) r = Once (some a) xs r
Once (some b) (some a ∷ xs) r = ⊥

-- An empty domain is none of the settings.
abbrev pub IsProper : Option Str → Type 0
IsProper none = Unit
IsProper (some d) = is_empty d ≡ false

module _ {A : Type 0} (message : String) where
  -- One step of a field: from an assignment that succeeded the settings go on.
  pub set_once-Once :
      (o t r : Option A) (xs : List (Option A)) (t' : Option A)
      → set_once message o t ≡ ok t'
      → Once t' xs r
      → Once t (o ∷ xs) r
  unfolding set_once
  set_once-Once none t r xs t' e h = subst (λ z. Once z xs r) (ground arith) h
  set_once-Once (some a) none r xs t' e h = subst (λ z. Once z xs r) (ground arith) h
  set_once-Once (some a) (some b) r xs t' e h = cc

  -- Back: the settings of a field that is configured once begin with a success.
  pub Once-set_once :
      (o t r : Option A) (xs : List (Option A))
      → Once t (o ∷ xs) r
      → (t' : Option A) × (set_once message o t ≡ ok t') × Once t' xs r
  unfolding set_once
  Once-set_once none t r xs h = (t, refl, h)
  Once-set_once (some a) none r xs h = (some a, refl, h)
  Once-set_once (some a) (some b) r xs h = absurd h

pub set_domain-Once :
    (o t r : Option Str) (xs : List (Option Str)) (t' : Option Str)
    → set_domain o t ≡ ok t'
    → Once t' xs r
    → Once t (o ∷ xs) r × IsProper o
unfolding set_domain
set_domain-Once none t r xs t' e h = (subst (λ z. Once z xs r) (ground arith) h, tt)
set_domain-Once (some a) none r xs t' e h =
    (subst (λ z. Once z xs r) (ground arith) h, ground arith)
set_domain-Once (some a) (some b) r xs t' e h = cc

pub Once-set_domain :
    (o t r : Option Str) (xs : List (Option Str))
    → Once t (o ∷ xs) r
    → IsProper o
    → (t' : Option Str) × (set_domain o t ≡ ok t') × Once t' xs r
unfolding set_domain
Once-set_domain none t r xs h p = (t, refl, h)
Once-set_domain (some a) none r xs h p = (some a, rw p, h)
Once-set_domain (some a) (some b) r xs h p = absurd h

module _ {R L : Type 0} where
  -- Each field is configured at most once by the option structs, and the domain is never empty.
  pub record AllOnce (t : ClientOptions R L) (opts : List (ClientOptions R L))
      (r : ClientOptions R L) : Type 0 where
    pub domain : Once t.domain (map (λ o. o.domain) opts) r.domain
    pub proper : All (λ o. IsProper o.domain) opts
    pub destructive :
        Once t.enable_destructive_api_calls
          (map (λ o. o.enable_destructive_api_calls) opts)
          r.enable_destructive_api_calls
    pub pre :
        Once t.pre_chain_transport_hook
          (map (λ o. o.pre_chain_transport_hook) opts)
          r.pre_chain_transport_hook
    pub post :
        Once t.post_chain_transport_hook
          (map (λ o. o.post_chain_transport_hook) opts)
          r.post_chain_transport_hook
    pub logger : Once t.logger (map (λ o. o.logger) opts) r.logger
    pub bundle : Once t.ca_bundle (map (λ o. o.ca_bundle) opts) r.ca_bundle
    pub auth : Once t.auth_transport (map (λ o. o.auth_transport) opts) r.auth_transport
    pub conditional :
        Once t.enable_conditional_requests
          (map (λ o. o.enable_conditional_requests) opts)
          r.enable_conditional_requests

  -- Every assignment of `ApplyToClientOptions` succeeds.
  record Steps (o t r : ClientOptions R L) : Type 0 where
    domain : set_domain o.domain t.domain ≡ ok r.domain
    destructive :
        set_once "option EnableDestructiveAPICalls already configured: %w"
          o.enable_destructive_api_calls t.enable_destructive_api_calls
        ≡ ok r.enable_destructive_api_calls
    pre :
        set_once "option PreChainTransportHook already configured: %w" o.pre_chain_transport_hook
          t.pre_chain_transport_hook
        ≡ ok r.pre_chain_transport_hook
    post :
        set_once "option PostChainTransportHook already configured: %w" o.post_chain_transport_hook
          t.post_chain_transport_hook
        ≡ ok r.post_chain_transport_hook
    logger : set_once "option Logger already configured: %w" o.logger t.logger ≡ ok r.logger
    bundle :
        set_once "option CABundle already configured: %w" o.ca_bundle t.ca_bundle ≡ ok r.ca_bundle
    auth :
        set_once "option authTransport already configured: %w" o.auth_transport t.auth_transport
        ≡ ok r.auth_transport
    conditional :
        set_once "option enableConditionalRequests already configured: %w"
          o.enable_conditional_requests t.enable_conditional_requests
        ≡ ok r.enable_conditional_requests

  apply→Steps : (o t r : ClientOptions R L) → apply_to_client_options o t ≡ ok r → Steps o t r
  unfolding apply_to_client_options
  apply→Steps o t r h = ground arith

  Steps→apply : (o t r : ClientOptions R L) → Steps o t r → apply_to_client_options o t ≡ ok r
  unfolding apply_to_client_options
  Steps→apply o t r s =
      rw (s.domain, s.destructive, s.pre, s.post, s.logger, s.bundle, s.auth, s.conditional)

  apply→AllOnce :
      (t : ClientOptions R L) (opts : List (ClientOptions R L)) (r : ClientOptions R L)
      → apply_options t (map apply_to_client_options opts) ≡ ok r
      → AllOnce t opts r
  unfolding apply_options
  apply→AllOnce t [] r h = ground arith
  apply→AllOnce t (o ∷ opts) r h =
      let (t', e, k) = and_then-eq-ok (apply_to_client_options o t) _ h in
      let s = apply→Steps o t t' e in
      let a = apply→AllOnce t' opts r k in
      let (d, p) = set_domain-Once o.domain t.domain r.domain _ t'.domain s.domain a.domain in
      record {
        domain = d;
        proper = (p, a.proper);
        destructive = set_once-Once _ _ _ _ _ _ s.destructive a.destructive;
        pre = set_once-Once _ _ _ _ _ _ s.pre a.pre;
        post = set_once-Once _ _ _ _ _ _ s.post a.post;
        logger = set_once-Once _ _ _ _ _ _ s.logger a.logger;
        bundle = set_once-Once _ _ _ _ _ _ s.bundle a.bundle;
        auth = set_once-Once _ _ _ _ _ _ s.auth a.auth;
        conditional = set_once-Once _ _ _ _ _ _ s.conditional a.conditional;
      }

  AllOnce→apply :
      (t : ClientOptions R L) (opts : List (ClientOptions R L)) (r : ClientOptions R L)
      → AllOnce t opts r
      → apply_options t (map apply_to_client_options opts) ≡ ok r
  unfolding apply_options
  AllOnce→apply t [] r a = ground arith
  AllOnce→apply t (o ∷ opts) r a =
      let (t1, e1, h1) = Once-set_domain o.domain t.domain r.domain _ a.domain a.proper.0 in
      let (t2, e2, h2) = Once-set_once _ o.enable_destructive_api_calls _ _ _ a.destructive in
      let (t3, e3, h3) = Once-set_once _ o.pre_chain_transport_hook _ _ _ a.pre in
      let (t4, e4, h4) = Once-set_once _ o.post_chain_transport_hook _ _ _ a.post in
      let (t5, e5, h5) = Once-set_once _ o.logger _ _ _ a.logger in
      let (t6, e6, h6) = Once-set_once _ o.ca_bundle _ _ _ a.bundle in
      let (t7, e7, h7) = Once-set_once _ o.auth_transport _ _ _ a.auth in
      let (t8, e8, h8) = Once-set_once _ o.enable_conditional_requests _ _ _ a.conditional in
      let t' : ClientOptions R L = record {
        common = record {
          domain = t1;
          enable_destructive_api_calls = t2;
          pre_chain_transport_hook = t3;
          post_chain_transport_hook = t4;
          logger = t5;
          ca_bundle = t6;
        };
        auth_transport = t7;
        enable_conditional_requests = t8;
      } in
      let s : Steps o t t' = record {
        domain = e1;
        destructive = e2;
        pre = e3;
        post = e4;
        logger = e5;
        bundle = e6;
        auth = e7;
        conditional = e8;
      } in
      rw (Steps→apply o t t' s) (
        AllOnce→apply t' opts r (record {
          domain = h1;
          proper = a.proper.1;
          destructive = h2;
          pre = h3;
          post = h4;
          logger = h5;
          bundle = h6;
          auth = h7;
          conditional = h8;
        }))

  -- Making client options of option structs succeeds with `r` exactly when each field is set by at
  -- most one of them, with its value in `r`, and no domain is empty.
  pub make_client_options_iff :
      (opts : List (ClientOptions R L)) (r : ClientOptions R L)
      → (make_client_options (map apply_to_client_options opts) ≡ ok r) ↔ AllOnce no_options opts r
  unfolding make_client_options
  make_client_options_iff opts r = (λ h. apply→AllOnce _ opts r h, λ a. AllOnce→apply _ opts r a)
