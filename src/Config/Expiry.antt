-- ===== src/Config/Expiry.antt =====
-- The expiry of the documents of a group: GetCouchbaseMembership of config/dcp.go.
use go_dcp.Prelude.{
  ℕ, ◌^◌, ◌≡◌, ap, ◌∙◌, ℤ, Option, none, some, String, string_comparable, lookup, codes, ltb,
  if◌then◌else◌, arith,
}
use go_dcp.Strconv.{parse_uint, itoa, below}
use go_dcp.Strconv.Decimal.{unsigned-itoa}
use go_dcp.Config.Types.{Dcp}
use go_dcp.Config.Defaults.{seconds}
use go_dcp.Config.Views.{read_or, read_seconds, parsed_seconds, get_couchbase_membership}

read_seconds-itoa :
    (value : String) (n : ℕ)
    → codes value ≡ itoa n
    → read_seconds value ≡ (if ltb n (2 ^ 32) then some n else none)
unfolding read_seconds parse_uint
read_seconds-itoa value n e =
    ap (λ s. parsed_seconds (parse_uint (2 ^ 32) s)) e
    ∙ ap (λ o. parsed_seconds (below (2 ^ 32) o)) (unsigned-itoa n)
    ∙ ground arith

module _ (parse_duration : String → Option ℤ) where
  -- When the configuration of the group gives its expiry as a decimal number, and every duration
  -- that it gives can be read, GetCouchbaseMembership answers with exactly this number of seconds
  -- and these durations, or panics if the number does not fit in 32 bits. It is never cut to them.
  pub get_couchbase_membership_lem :
      (c : Dcp) (value : String) (n : ℕ) (heartbeat tolerance monitor timeout : ℤ)
      → lookup "expirySeconds" c.dcp.group.membership.config ≡ some value
      → codes value ≡ itoa n
      → read_or parse_duration
          (lookup "heartbeatInterval" c.dcp.group.membership.config)
          (seconds 10)
        ≡ some heartbeat
      → read_or parse_duration
          (lookup "heartbeatToleranceDuration" c.dcp.group.membership.config)
          (seconds 60)
        ≡ some tolerance
      → read_or parse_duration (lookup "monitorInterval" c.dcp.group.membership.config) (seconds 30)
        ≡ some monitor
      → read_or parse_duration (lookup "timeout" c.dcp.group.membership.config) (seconds 30)
        ≡ some timeout
      → get_couchbase_membership parse_duration c ≡ (
          if ltb n (2 ^ 32)
          then some (record {
            expiry_seconds = n;
            heartbeat_interval = heartbeat;
            heartbeat_tolerance_duration = tolerance;
            monitor_interval = monitor;
            timeout = timeout;
          })
          else none)
  unfolding get_couchbase_membership
  get_couchbase_membership_lem c value n heartbeat tolerance monitor timeout e number h t m w =
      rw (e, read_seconds-itoa value n number, h, t, m, w) (ground arith)
