-- ===== src/Gitprovider/ClientOptions/Failures.antt =====
-- How `MakeClientOptions` can fail on the options that the `With…` functions return.
use go_git_providers.Prelude.{
  ◌≡◌, refl, Bool, true, Option, none, some, List, [], ◌∷◌, Str, All, String,
}
use go_git_providers.Errors.{Err, is_error, invalid_client_options, errors_is, same}
use go_git_providers.Exec.{Result, ok, err, and_then}
use go_git_providers.Gitprovider.ClientOptions.Transport.{ChainableRoundTripperFunc, Transports}
use go_git_providers.Gitprovider.ClientOptions.{
  CommonClientOptions, ClientOptions, ClientOption, set_once, set_domain, apply_to_client_options,
  apply_to_common_client_options, apply_options, make_client_options, no_options, option_error,
  build_common_option, with_domain, with_logger, with_destructive_api_calls,
  with_conditional_requests, with_pre_chain_transport_hook, with_post_chain_transport_hook,
  with_oauth2_token, with_custom_ca_post_chain_transport_hook,
}

-- A result, or an error that is `ErrInvalidClientOptions`; no panic.
pub data IsSafe {A : Type 0} : Result A → Type 0 where
  done : (a : A) → IsSafe (ok a)
  refused : (e : Err) → is_error e invalid_client_options ≡ true → IsSafe (err e)

and_then-IsSafe :
    {A B : Type 0} {m : Result A} {f : A → Result B}
    → IsSafe m
    → ((a : A) → IsSafe (f a))
    → IsSafe (and_then m f)
and_then-IsSafe (done a) k = k a
and_then-IsSafe (refused e h) k = refused e h

set_once-IsSafe : {A : Type 0} (message : String) (o t : Option A) → IsSafe (set_once message o t)
unfolding set_once errors_is same
set_once-IsSafe message none t = done t
set_once-IsSafe message (some a) none = done (some a)
set_once-IsSafe message (some a) (some b) = refused _ refl

set_domain-IsSafe : (o t : Option Str) → IsSafe (set_domain o t)
unfolding set_domain errors_is same
set_domain-IsSafe none t = done t
set_domain-IsSafe (some []) none = refused _ refl
set_domain-IsSafe (some (c ∷ d)) none = done (some (c ∷ d))
set_domain-IsSafe (some a) (some b) = refused _ refl

module _ {R L : Type 0} where
  common-IsSafe : (o t : CommonClientOptions R L) → IsSafe (apply_to_common_client_options o t)
  unfolding apply_to_common_client_options
  common-IsSafe o t = and_then-IsSafe (set_domain-IsSafe _ _) λ _.
      and_then-IsSafe (set_once-IsSafe _ _ _) λ _. and_then-IsSafe (set_once-IsSafe _ _ _) λ _.
        and_then-IsSafe (set_once-IsSafe _ _ _) λ _.
          and_then-IsSafe (set_once-IsSafe _ _ _)
            λ _. and_then-IsSafe (set_once-IsSafe _ _ _) (λ _. done _)

  apply-IsSafe : (o t : ClientOptions R L) → IsSafe (apply_to_client_options o t)
  unfolding apply_to_client_options
  apply-IsSafe o t = and_then-IsSafe (common-IsSafe _ _) λ _.
      and_then-IsSafe (set_once-IsSafe _ _ _)
        λ _. and_then-IsSafe (set_once-IsSafe _ _ _) (λ _. done _)

  option_error-IsSafe : (message : String) (t : ClientOptions R L) → IsSafe (option_error message t)
  unfolding option_error errors_is same
  option_error-IsSafe message t = refused _ refl

module _ {R L : Type 0} (t : Transports R) where
  -- What a caller can pass to `NewClient`.
  pub data IsOption : ClientOption R L → Type 0 where
    domain : (d : Str) → IsOption (with_domain d)
    logger : (l : Option L) → IsOption (with_logger l)
    destructive : (b : Bool) → IsOption (with_destructive_api_calls b)
    conditional : (b : Bool) → IsOption (with_conditional_requests b)
    pre : (f : Option (ChainableRoundTripperFunc R)) → IsOption (with_pre_chain_transport_hook f)
    post : (f : Option (ChainableRoundTripperFunc R)) → IsOption (with_post_chain_transport_hook f)
    token : (s : Str) → IsOption (with_oauth2_token t s)
    bundle : (s : Str) → IsOption (with_custom_ca_post_chain_transport_hook t s)

  IsOption-IsSafe :
      {opt : ClientOption R L} → IsOption opt → (o : ClientOptions R L) → IsSafe (opt o)
  unfolding with_domain with_logger with_destructive_api_calls with_conditional_requests
      with_pre_chain_transport_hook with_post_chain_transport_hook with_oauth2_token
      with_custom_ca_post_chain_transport_hook build_common_option
  IsOption-IsSafe (domain d) o = apply-IsSafe _ o
  IsOption-IsSafe (logger l) o = apply-IsSafe _ o
  IsOption-IsSafe (destructive b) o = apply-IsSafe _ o
  IsOption-IsSafe (conditional b) o = apply-IsSafe _ o
  IsOption-IsSafe (pre none) o = option_error-IsSafe _ o
  IsOption-IsSafe (pre (some f)) o = apply-IsSafe _ o
  IsOption-IsSafe (post none) o = option_error-IsSafe _ o
  IsOption-IsSafe (post (some f)) o = apply-IsSafe _ o
  IsOption-IsSafe (token []) o = option_error-IsSafe _ o
  IsOption-IsSafe (token (c ∷ s)) o = apply-IsSafe _ o
  IsOption-IsSafe (bundle []) o = option_error-IsSafe _ o
  IsOption-IsSafe (bundle (c ∷ s)) o = apply-IsSafe _ o

  apply_options-IsSafe :
      (o : ClientOptions R L) (opts : List (ClientOption R L))
      → All IsOption opts
      → IsSafe (apply_options o opts)
  unfolding apply_options
  apply_options-IsSafe o [] h = done o
  apply_options-IsSafe o (opt ∷ opts) h =
      and_then-IsSafe (IsOption-IsSafe h.0 o) (λ o'. apply_options-IsSafe o' opts h.1)

  -- From any options that the `With…` functions return, `MakeClientOptions` yields client options
  -- or an error that is `ErrInvalidClientOptions`, and nothing else.
  pub make_client_options-IsSafe :
      (opts : List (ClientOption R L)) → All IsOption opts → IsSafe (make_client_options opts)
  unfolding make_client_options
  make_client_options-IsSafe opts h = apply_options-IsSafe no_options opts h
