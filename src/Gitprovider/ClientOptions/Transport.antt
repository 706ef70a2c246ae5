-- ===== src/Gitprovider/ClientOptions/Transport.antt =====
-- gitprovider/client_options.go: functions that chain `http.RoundTripper`s. `R` is the type of
-- non-nil round trippers, so `Option R` is the interface type.
use go_git_providers.Prelude.{Option, none, some, List, [], ◌∷◌, Str}
use go_git_providers.Errors.{sentinel, invalid_transport_chain_return}
use go_git_providers.Exec.{Result, ok, err}

abbrev pub ChainableRoundTripperFunc : Type 0 → Type 0
ChainableRoundTripperFunc R = Option R → Option R

-- The transports that other packages implement: `oauth2.Transport` over a base, the transport of
-- the caching package over a base, and an `http.Transport` that trusts a bundle.
pub record Transports (R : Type 0) : Type 0 where
  pub oauth2 : Str → Option R → R
  pub http_cache : Option R → R
  pub custom_ca : Str → R

module _ {R : Type 0} where
  -- The loop of `BuildClientFromTransportChain` from a transport on.
  unfoldable pub build_from : Option R → List (ChainableRoundTripperFunc R) → Result (Option R)
  build_from transport [] = ok transport
  build_from transport (f ∷ chain) = elim (f transport) [
    | none ↦ err (sentinel invalid_transport_chain_return)
    | some r ↦ build_from (some r) chain
  ]

  -- `BuildClientFromTransportChain`: the transport of the client.
  unfoldable pub build_client_from_transport_chain :
      List (ChainableRoundTripperFunc R) → Result (Option R)
  unfolding build_from
  build_client_from_transport_chain = build_from none
