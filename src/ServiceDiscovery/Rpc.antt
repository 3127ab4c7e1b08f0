-- ===== src/ServiceDiscovery/Rpc.antt =====
-- servicediscovery/rpc_client.go and models/identity.go. What the network answers is an argument.
use go_dcp.Prelude.{
  ℕ, Bool, true, false, not, ◌&&◌, Option, none, some, String, string_comparable, if◌then◌else◌,
}
use go_dcp.Helpers.{retry}

pub record Identity : Type 0 where
  pub ip : String
  pub name : String
  pub cluster_join_time : ℕ

unfoldable pub equal : Identity → Identity → Bool
equal k other = string_comparable.beq k.ip other.ip && string_comparable.beq k.name other.name

-- The answers to the attempts that one method makes, by their number: `none` is no error.
abbrev pub Answers : Type 0
Answers = ℕ → Option String

-- What the network answers while a step runs: rpc.Dial to an address, and the calls of the handlers
-- of the member with a name.
pub record Network : Type 0 where
  pub dial : String → Answers
  pub ping : String → Answers
  pub register : String → Answers
  pub rebalance : String → Answers

-- The embedded client of net/rpc is there exactly when `connected` is set.
pub record Client : Type 0 where
  pub my_identity : Identity
  pub target_identity : Identity
  pub connected : Bool

-- The error that a method returns after its three attempts.
unfoldable pub after_retry : Answers → Option String
unfolding retry
after_retry answers = (retry answers 3).0

abbrev pub dialled : Client → Option String → Client × Option String
dialled c none = (record c { connected = true }, none)
dialled c (some err) = (c, some err)

unfoldable pub connect : Network → Client → Client × Option String
unfolding after_retry
connect net c = dialled c (after_retry (net.dial c.target_identity.ip))

unfoldable pub close : Client → Client
close c = if not c.connected then c else record c { connected = false }

unfoldable pub ping : Network → Client → Option String
unfolding after_retry
ping net c = after_retry (net.ping c.target_identity.name)

unfoldable pub register : Network → Client → Option String
unfolding after_retry
register net c = after_retry (net.register c.target_identity.name)

unfoldable pub call_rebalance : Network → Client → Option String
unfolding after_retry
call_rebalance net c = after_retry (net.rebalance c.target_identity.name)

abbrev pub if_connected : Client × Option String → Option Client
if_connected (c, none) = some c
if_connected (c, some err) = none

-- `none`: the client could not connect.
unfoldable pub new_client : Network → Identity → Identity → Option Client
unfolding connect
new_client net my_identity target_identity = if_connected (
    connect net
      (record { my_identity = my_identity; target_identity = target_identity; connected = false }))
