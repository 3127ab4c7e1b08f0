-- ===== src/Api.antt =====
-- api/api.go: the handlers of its routes. Api/Requests.antt shows what requests for a membership
-- come to.
pub mod Requests
use go_dcp.Prelude.{
  ℕ, Bool, true, false, not, Option, none, some, List, [], ◌∷◌, ◌++◌, String, nat_comparable,
  string_comparable, if◌then◌else◌, ◌>>=◌,
}
use go_dcp.Wrapper.{CsMap, ConcurrentSwissMap}
use go_dcp.Models.{Offset}
use go_dcp.Membership.{Model, is_changed}
use go_dcp.Stream.{Stream, get_offsets}
use go_dcp.ServiceDiscovery.{ServiceDiscovery, get_all}
use go_dcp.Lifecycle as Lifecycle
use go_dcp.Config.Types.{Dcp}

-- What a request is answered with: a text, the offsets or the names of the followers as JSON, or
-- the error of a ping.
pub data Response ⦃cs : CsMap ℕ⦄ : Type 0 where
  text : String → Response
  bad_request : String → Response
  offsets : ConcurrentSwissMap ℕ Offset → Response
  names : List String → Response
  ping_failed : Response

module _ ⦃cs : CsMap ℕ⦄ where
  unfoldable pub status : Bool → Response
  status answers_pings = if answers_pings then text "OK" else ping_failed

  unfoldable pub offset : Stream → Response
  offset stream =
      if not stream.open_
      then text "offset could not get, stream is not open"
      else offsets (get_offsets stream).0

  -- `none` is a request that waits for a lock, or a panic.
  unfoldable pub rebalance : (Stream → Stream) → Stream → Option (Response × Stream)
  rebalance meanwhile stream =
      if not stream.open_
      then some (text "rebalance skipped, stream is not open", stream)
      else Lifecycle.rebalance meanwhile stream >>= λ s. some (text "OK", s)

  -- `membership_info` of the API, its answer, and the models published on the bus. The body of the
  -- request is `none` if it cannot be parsed.
  unfoldable pub info : Option Model → Option Model → Option Model × Response × List Model
  unfolding is_changed
  info membership_info none = (membership_info, bad_request "invalid request body", [])
  info membership_info (some new_info) =
      if is_changed new_info membership_info
      then (some new_info, text "OK", new_info ∷ [])
      else (membership_info, text "OK", [])

  unfoldable pub followers : ⦃ss : CsMap String⦄ → Option ServiceDiscovery → Response
  unfolding get_all
  followers none = text "service discovery is not enabled"
  followers (some s) = names (get_all s)

pub data Route : Type 0 where
  metrics profiler states_offset states_followers status_route rebalance_route info_route : Route

abbrev pub only_if : Bool → List Route → List Route
only_if b routes = if b then routes else []

-- The routes of NewAPI; `registers` says whether the collectors of metrics could be registered.
unfoldable pub new_api : Bool → Dcp → List Route
new_api registers config =
    only_if registers (metrics ∷ [])
    ++ (only_if config.debug (profiler ∷ states_offset ∷ states_followers ∷ [])
        ++ (only_if (not config.health_check.disabled) (status_route ∷ [])
            ++ (rebalance_route ∷ info_route ∷ [])))
