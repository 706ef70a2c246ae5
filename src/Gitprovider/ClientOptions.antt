-- ===== src/Gitprovider/ClientOptions.antt =====
-- gitprovider/client_options.go: the options of a client and the chain of its transports. The type
-- of loggers and the transports of other packages are parameters; a nil pointer, function or slice
-- is `none`.
pub mod Transport
pub mod Once
pub mod Chain
pub mod Failures
use go_git_providers.Prelude.{
  ℕ, String, Bool, true, false, Option, none, some, List, [], ◌∷◌, Str, is_empty, if◌then◌else◌,
}
use go_git_providers.Errors.{Err, sentinel, wrap, invalid_client_options}
use go_git_providers.Exec.{Result, ok, err, and_then}
use go_git_providers.Gitprovider.ClientOptions.Transport.{ChainableRoundTripperFunc, Transports}

pub record CommonClientOptions (R L : Type 0) : Type 0 where
  pub domain : Option Str
  pub enable_destructive_api_calls : Option Bool
  pub pre_chain_transport_hook : Option (ChainableRoundTripperFunc R)
  pub post_chain_transport_hook : Option (ChainableRoundTripperFunc R)
  pub logger : Option L
  pub ca_bundle : Option Str

pub record ClientOptions (R L : Type 0) : Type 0 where
  pub common : CommonClientOptions R L
  pub open common use *
  pub auth_transport : Option (ChainableRoundTripperFunc R)
  pub enable_conditional_requests : Option Bool

-- `fmt.Errorf("…: %w", ErrInvalidClientOptions)`
abbrev pub invalid_options {ℓ} : {A : Type ℓ} → String → Result A
invalid_options message = err (wrap message [] (sentinel invalid_client_options))

-- `if opts.F != nil { if target.F != nil { return error }; target.F = opts.F }`
unfoldable pub set_once : {A : Type 0} → String → Option A → Option A → Result (Option A)
set_once message none target = ok target
set_once message (some a) none = ok (some a)
set_once message (some a) (some b) = invalid_options message

-- The domain must not be empty either; that is tested behind the other test.
unfoldable pub set_domain : Option Str → Option Str → Result (Option Str)
set_domain none target = ok target
set_domain (some d) (some t) = invalid_options "option Domain already configured: %w"
set_domain (some d) none =
    if is_empty d
    then invalid_options "option Domain cannot be an empty string: %w"
    else ok (some d)

module _ {R L : Type 0} where
  -- `(*CommonClientOptions).ApplyToCommonClientOptions`
  unfoldable pub apply_to_common_client_options :
      CommonClientOptions R L → CommonClientOptions R L → Result (CommonClientOptions R L)
  apply_to_common_client_options opts target =
      and_then (set_domain opts.domain target.domain) λ domain.
        and_then
          (set_once "option EnableDestructiveAPICalls already configured: %w"
            opts.enable_destructive_api_calls target.enable_destructive_api_calls)
          λ destructive.
            and_then
              (set_once "option PreChainTransportHook already configured: %w"
                opts.pre_chain_transport_hook target.pre_chain_transport_hook)
              λ pre.
                and_then
                  (set_once "option PostChainTransportHook already configured: %w"
                    opts.post_chain_transport_hook target.post_chain_transport_hook)
                  λ post.
                    and_then
                      (set_once "option Logger already configured: %w" opts.logger target.logger)
                      λ logger.
                        and_then
                          (set_once "option CABundle already configured: %w" opts.ca_bundle
                            target.ca_bundle)
                          λ bundle. ok (record {
                            domain = domain;
                            enable_destructive_api_calls = destructive;
                            pre_chain_transport_hook = pre;
                            post_chain_transport_hook = post;
                            logger = logger;
                            ca_bundle = bundle;
                          })

  -- `(*ClientOptions).ApplyToClientOptions`
  unfoldable pub apply_to_client_options :
      ClientOptions R L → ClientOptions R L → Result (ClientOptions R L)
  unfolding apply_to_common_client_options
  apply_to_client_options opts target =
      and_then (apply_to_common_client_options opts.common target.common) λ common.
        and_then
          (set_once "option authTransport already configured: %w" opts.auth_transport
            target.auth_transport)
          λ auth.
            and_then
              (set_once "option enableConditionalRequests already configured: %w"
                opts.enable_conditional_requests target.enable_conditional_requests)
              λ conditional. ok (record {
                common = common;
                auth_transport = auth;
                enable_conditional_requests = conditional;
              })

-- The interface `ClientOption`: it changes the target, or fails.
abbrev pub ClientOption : Type 0 → Type 0 → Type 0
ClientOption R L = ClientOptions R L → Result (ClientOptions R L)

module _ {R L : Type 0} where
  abbrev pub no_common_options : CommonClientOptions R L
  no_common_options = record {
    domain = none;
    enable_destructive_api_calls = none;
    pre_chain_transport_hook = none;
    post_chain_transport_hook = none;
    logger = none;
    ca_bundle = none;
  }

  abbrev pub no_options : ClientOptions R L
  no_options = record {
    common = no_common_options;
    auth_transport = none;
    enable_conditional_requests = none;
  }

  -- the loop of `MakeClientOptions`
  unfoldable pub apply_options :
      ClientOptions R L → List (ClientOption R L) → Result (ClientOptions R L)
  apply_options o [] = ok o
  apply_options o (opt ∷ opts) = and_then (opt o) (λ o'. apply_options o' opts)

  -- `MakeClientOptions`
  unfoldable pub make_client_options : List (ClientOption R L) → Result (ClientOptions R L)
  unfolding apply_options
  make_client_options = apply_options no_options

  -- `errorOption`
  unfoldable pub option_error : String → ClientOption R L
  option_error message target = invalid_options message

  -- `buildCommonOption`
  unfoldable pub build_common_option : CommonClientOptions R L → ClientOption R L
  unfolding apply_to_client_options
  build_common_option opt = apply_to_client_options (record no_options { common = opt })

  -- `WithDomain`, `WithLogger`, `WithDestructiveAPICalls`, `WithConditionalRequests`
  unfoldable pub with_domain : Str → ClientOption R L
  unfolding build_common_option
  with_domain domain = build_common_option (record no_common_options { domain = some domain })

  unfoldable pub with_logger : Option L → ClientOption R L
  unfolding build_common_option
  with_logger log = build_common_option (record no_common_options { logger = log })

  unfoldable pub with_destructive_api_calls : Bool → ClientOption R L
  unfolding build_common_option
  with_destructive_api_calls actions =
      build_common_option (record no_common_options { enable_destructive_api_calls = some actions })

  unfoldable pub with_conditional_requests : Bool → ClientOption R L
  unfolding apply_to_client_options
  with_conditional_requests conditional =
      apply_to_client_options (record no_options { enable_conditional_requests = some conditional })

  -- `WithPreChainTransportHook`, `WithPostChainTransportHook`
  unfoldable pub with_pre_chain_transport_hook :
      Option (ChainableRoundTripperFunc R) → ClientOption R L
  unfolding build_common_option option_error
  with_pre_chain_transport_hook none = option_error "preRoundTripperFunc cannot be nil: %w"
  with_pre_chain_transport_hook (some f) =
      build_common_option (record no_common_options { pre_chain_transport_hook = some f })

  unfoldable pub with_post_chain_transport_hook :
      Option (ChainableRoundTripperFunc R) → ClientOption R L
  unfolding build_common_option option_error
  with_post_chain_transport_hook none = option_error "postRoundTripperFunc cannot be nil: %w"
  with_post_chain_transport_hook (some f) =
      build_common_option (record no_common_options { post_chain_transport_hook = some f })

  module _ (t : Transports R) where
    -- `WithOAuth2Token`
    unfoldable pub with_oauth2_token : Str → ClientOption R L
    unfolding apply_to_client_options option_error
    with_oauth2_token [] = option_error "oauth2Token cannot be empty: %w"
    with_oauth2_token (c ∷ token) =
        apply_to_client_options
          (record no_options { auth_transport = some (λ base. some (t.oauth2 (c ∷ token) base)) })

    -- `WithCustomCAPostChainTransportHook`
    unfoldable pub with_custom_ca_post_chain_transport_hook : Str → ClientOption R L
    unfolding build_common_option option_error
    with_custom_ca_post_chain_transport_hook [] = option_error "caBundle cannot be empty: %w"
    with_custom_ca_post_chain_transport_hook (c ∷ bundle) =
        build_common_option (record no_common_options {
          ca_bundle = some (c ∷ bundle);
          post_chain_transport_hook = some (λ base. some (t.custom_ca (c ∷ bundle)));
        })
