-- ===== src/Metrics/Stale.antt =====
-- The collector of a closed client stays registered, for metric/registerer.go, metric/collector.go
-- and dcp.go, whose close closes the stream before it unregisters the collectors.
use go_dcp.Prelude.{
  ℕ, ◌≡◌, refl, Bool, false, Option, none, some, List, [], ◌∷◌, String, nat_comparable, arith,
}
use go_dcp.Wrapper.{CsMap, ConcurrentSwissMap}
use go_dcp.Models.{AgentQueue}
use go_dcp.Stream.{Stream}
use go_dcp.Lifecycle.{stream_close, forget_streams}
use go_dcp.Discovery.{VBucketDiscoveryMetric}
use go_dcp.Metrics.Descs.{Prometheus}
use go_dcp.Metrics.Defs.{Measured, describe, collect}
use go_dcp.Metrics.Registerer.{Registry, unregister, unregister_each, unregister_all}

module _ ⦃cs : CsMap ℕ⦄ (prometheus : Prometheus) where
  closed-observers :
      (meanwhile : Stream → Stream) (s s' : Stream) (with_cancel : Bool) (ids : List ℕ)
      → stream_close meanwhile s with_cancel ≡ some (s', ids)
      → s'.observers ≡ none
  unfolding stream_close forget_streams
  closed-observers meanwhile s s' with_cancel ids h = ground arith

  -- A client has closed its stream. Then its collector describes no metric, so that UnregisterAll of
  -- a registerer with this collector alone returns false and changes nothing: the collector stays
  -- registered, and is kept. This is so whatever the highest numbers, the queues and the other values
  -- that are measured then.
  pub unregister_all-closed :
      (registry : Registry) (w : registry.State) (c : ℕ) (describes : ℕ → Bool)
      → (meanwhile : Stream → Stream) (s s' : Stream) (with_cancel : Bool) (ids : List ℕ)
      → (seq_nos : Option (ConcurrentSwissMap ℕ ℕ)) (queues : List AgentQueue)
      → (discovery : VBucketDiscoveryMetric) (type : String) (measured : Measured)
      → stream_close meanwhile s with_cancel ≡ some (s', ids)
      → describe prometheus (collect prometheus s' seq_nos queues discovery type measured)
        ≡ some (describes c)
      → unregister_all registry describes (record { wrap = some w; cs = c ∷ [] })
        ≡ (record { wrap = some w; cs = c ∷ [] }, false)
  unfolding unregister_all unregister_each unregister collect
  unregister_all-closed registry w c describes meanwhile s s' with_cancel ids seq_nos queues
        discovery type measured closed asked =
      let gone : s'.observers ≡ none = closed-observers meanwhile s s' with_cancel ids closed in
      let silent : describes c ≡ false = ground (arith, gone, asked) in
      rw silent (rw (registry.unregister-undescribed w c) refl)
