-- ===== src/Gitprovider/ClientOptions/Chain.antt =====
-- `GetTransportChain`, and the transport of the client that is built from it.
use go_git_providers.Prelude.{◌≡◌, refl, Bool, true, false, Option, none, some, List, [], ◌∷◌, ◌++◌}
use go_git_providers.Errors.{sentinel, invalid_transport_chain_return}
use go_git_providers.Exec.{Result, ok, err, and_then}
use go_git_providers.Gitprovider.ClientOptions.{ClientOptions}
use go_git_providers.Gitprovider.ClientOptions.Transport.{
  ChainableRoundTripperFunc, Transports, build_from, build_client_from_transport_chain,
}

-- `if f != nil { chain = append(chain, f) }`
abbrev pub if_set {ℓ} : {A : Type ℓ} → Option A → List A
if_set none = []
if_set (some a) = a ∷ []

-- `opts.enableConditionalRequests != nil && *opts.enableConditionalRequests`
unfoldable pub is_true : Option Bool → Bool
is_true none = false
is_true (some b) = b

abbrev when {ℓ} : {A : Type ℓ} → Bool → A → List A
when true a = a ∷ []
when false a = []

module _ {R L : Type 0} (t : Transports R) where
  -- `(*ClientOptions).GetTransportChain`
  unfoldable pub get_transport_chain : ClientOptions R L → List (ChainableRoundTripperFunc R)
  unfolding is_true
  get_transport_chain opts =
      if_set opts.post_chain_transport_hook
      ++ (if_set opts.auth_transport
          ++ (when (is_true opts.enable_conditional_requests) (λ base. some (t.http_cache base))
              ++ if_set opts.pre_chain_transport_hook))

-- A stage of the chain that is left out passes the transport below it on.
abbrev pub stage : {R : Type 0} → Option (Option R → R) → Option R → Option R
stage none below = below
stage (some f) below = some (f below)

-- A hook that keeps its contract and never returns nil.
abbrev pub total : {R : Type 0} → (Option R → R) → ChainableRoundTripperFunc R
total f base = some (f base)

abbrev pub as_hook : {R : Type 0} → Option (Option R → R) → Option (ChainableRoundTripperFunc R)
as_hook none = none
as_hook (some f) = some (total f)

abbrev cache_stage : {R : Type 0} → Transports R → Bool → Option (Option R → R)
cache_stage t true = some t.http_cache
cache_stage t false = none

module _ {R : Type 0} where
  build_from-append :
      (x : Option R) (c d : List (ChainableRoundTripperFunc R))
      → build_from x (c ++ d) ≡ and_then (build_from x c) (λ y. build_from y d)
  unfolding build_from
  build_from-append x [] d = refl
  build_from-append x (f ∷ c) d =
      elim (f x)
        as (λ y.
          ◌≡◌ {A = Result (Option R)}
            (elim y [
              | none ↦ err (sentinel invalid_transport_chain_return)
              | some r ↦ build_from (some r) (c ++ d)
            ])
            (and_then
              (elim y as (λ z. Result (Option R)) [
                | none ↦ err (sentinel invalid_transport_chain_return)
                | some r ↦ build_from (some r) c
              ])
              (λ z. build_from z d))) [ none ↦ refl | some r ↦ build_from-append (some r) c d ]

  build_from-stage :
      (x : Option R) (f : Option (Option R → R))
      → build_from x (if_set (as_hook f)) ≡ ok (stage f x)
  unfolding build_from
  build_from-stage x none = refl
  build_from-stage x (some f) = refl

  build_from-when :
      (t : Transports R) (x : Option R) (b : Bool)
      → build_from x (when b (λ base. some (t.http_cache base))) ≡ ok (stage (cache_stage t b) x)
  unfolding build_from
  build_from-when t x true = refl
  build_from-when t x false = refl

module _ {R L : Type 0} (t : Transports R) where
  -- Where no hook returns nil, the client's transport is the pre-chain hook over the cache over the
  -- authentication over the post-chain hook, each left out where it is not configured.
  pub build-get_transport_chain :
      (opts : ClientOptions R L) (post auth pre : Option (Option R → R))
      → opts.post_chain_transport_hook ≡ as_hook post
      → opts.auth_transport ≡ as_hook auth
      → opts.pre_chain_transport_hook ≡ as_hook pre
      → build_client_from_transport_chain (get_transport_chain t opts)
        ≡ ok (
            stage pre (
              stage
                (cache_stage t (is_true opts.enable_conditional_requests))
                (stage auth (stage post none))))
  unfolding build_client_from_transport_chain get_transport_chain
  build-get_transport_chain opts post auth pre p a q =
      rw (p, a, q)
        (rw (build_from-append, build_from-stage)
          (rw (build_from-append, build_from-stage)
            (rw
              (
                build_from-append,
                build_from-when t (stage auth (stage post none))
                    (is_true opts.enable_conditional_requests),
              )
              (build_from-stage _ pre))))
