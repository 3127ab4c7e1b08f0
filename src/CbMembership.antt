-- ===== src/CbMembership.antt =====
-- couchbase/membership.go: the membership that keeps an index of the instances of a group in the
-- bucket. Its GetInfo and its listener are those of Membership.antt. CbMembership/Registration.antt
-- has the methods that write the instance, and CbMembership/Dropped.antt what may go wrong there;
-- CbMembership/Defs.antt has the methods that watch the group, CbMembership/Numbers.antt the numbers that they give, and
-- CbMembership/Shared.antt the vBuckets that follow from them.
mod Defs
pub mod Registration
pub mod Dropped
pub mod Numbers
pub mod Shared
unfoldable pub use Defs.*
