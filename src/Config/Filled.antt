-- ===== src/Config/Filled.antt =====
-- The steps of ApplyDefaults in config/dcp.go that may panic, and the defaults themselves.
use go_dcp.Prelude.{
  ℕ, ◌<◌, ◌≤◌, ◌*◌, ◌^◌, ◌++◌, [], ◌∷◌, codes, ◌≡◌, ◌≢◌, refl, sym, string_comparable, inl, inr,
  ◌∙◌, ap, ℤ, pos, true, false, Bool-cases, Option, none, some, List, String, arith,
}
use go_dcp.Strconv.{itoa}
use go_dcp.Helpers.DataUnits.{Floats, IsExact}
use go_dcp.Helpers.Units.{mb, resolve_union_int_or_string_value-unit}
use go_dcp.Config.Types.{Size, int, Dcp}
use go_dcp.Config.Complete.{IsComplete, or_number_kept, or_text_kept}
use go_dcp.Config.Defaults.{
  is_empty, or_number, or_text, or_default_collection, seconds, from_env, group_membership_defaults,
  with_membership, apply_default_group_membership, or_size, apply_default_connection_buffer_size,
  apply_default_dcp,
}

pub or_number_set : (n : ℤ) (k : ℕ) → 0 < k → or_number n (pos k) ≢ pos 0
or_number_set n k h e = ground arith

pub or_text_set : (s d : String) → is_empty d ≡ false → or_text s d ≢ ""
or_text_set s d h e = elim (Bool-cases (is_empty s)) [
  | inl empty ↦
      let same : or_text s d ≡ d = rw empty refl in
      let contra : is_empty d ≡ true = (string_comparable.beq_iff d "").1 (sym same ∙ e) in
      ground arith
  | inr set ↦
      let same : or_text s d ≡ s = rw set refl in
      let contra : is_empty s ≡ true = (string_comparable.beq_iff s "").1 (sym same ∙ e) in
      ground arith
]

pub or_default_collection_set : (names : Option (List String)) → or_default_collection names ≢ none
or_default_collection_set none e = ground arith
or_default_collection_set (some names) e = ground arith

-- A number that the environment gives stays, and so does one that it does not give.
pub from_env_again :
    (value : String) (n t : ℤ)
    → from_env value (or_number n (pos 1)) ≡ some t
    → from_env value (or_number t (pos 1)) ≡ some t
unfolding from_env
from_env_again value n t e = ground arith

module _ (getenv : String → String) where
  -- What the environment says of the numbers, or the configuration where it says nothing.
  abbrev pub HasNumbers : Dcp → ℤ → ℤ → Type 0
  HasNumbers c total number =
      (from_env (getenv "GO_DCP__DCP_GROUP_MEMBERSHIP_TOTALMEMBERS")
          (or_number c.dcp.group.membership.total_members (pos 1))
        ≡ some total)
      × (from_env (getenv "GO_DCP__DCP_GROUP_MEMBERSHIP_MEMBERNUMBER")
            (or_number c.dcp.group.membership.member_number (pos 1))
          ≡ some number)

  abbrev pub numbered : Dcp → ℤ → ℤ → Dcp
  numbered c total number =
      with_membership c (record (group_membership_defaults c.dcp.group.membership) {
        total_members = total;
        member_number = number;
      })

  pub apply_default_group_membership_lem :
      (c : Dcp) (total number : ℤ)
      → HasNumbers c total number
      → apply_default_group_membership getenv c ≡ some (numbered c total number)
  unfolding apply_default_group_membership
  apply_default_group_membership_lem c total number h = rw (h.0, h.1) refl

  pub apply_default_group_membership_kept :
      (c : Dcp)
      → IsComplete c
      → HasNumbers c c.dcp.group.membership.total_members c.dcp.group.membership.member_number
      → apply_default_group_membership getenv c ≡ some c
  apply_default_group_membership_kept c h numbers =
      apply_default_group_membership_lem c _ _ numbers
      ∙ ap some (
          rw
            (
              or_number_kept _ (seconds 30) h.rebalance_delay,
              or_text_kept _ "couchbase" h.membership_type,
            )
            refl)

module _ (f : Floats) (exact : IsExact f) where
  -- A size that is set, or the one that a default in megabytes stands for.
  pub or_size_set :
      (size : Option Size) (default : String) (n : ℕ)
      → codes default ≡ itoa n ++ (b'm' ∷ b'b' ∷ [])
      → n * 1048576 ≤ 2 ^ 53
      → (bytes : Size) × (or_size f size default ≡ some (some bytes))
        × (size ≢ none → some bytes ≡ size)
  unfolding or_size
  or_size_set (some size) default n e fits = (size, refl, λ h. refl)
  or_size_set none default n e fits =
      let read =
        resolve_union_int_or_string_value-unit f exact default mb n b'm' b'b' e refl refl fits in
      (int (pos (n * 1048576)), rw read refl, λ h. absurd (h refl))

  or_size_kept :
      (size : Option Size) (default : String) → size ≢ none → or_size f size default ≡ some size
  unfolding or_size
  or_size_kept (some size) default h = refl
  or_size_kept none default h = absurd (h refl)

  pub apply_default_connection_buffer_size_kept :
      (c : Dcp) → IsComplete c → apply_default_connection_buffer_size f c ≡ some c
  unfolding apply_default_connection_buffer_size
  apply_default_connection_buffer_size_kept c h = rw (or_size_kept _ "20mb" h.buffer) refl

  pub apply_default_dcp_kept : (c : Dcp) → IsComplete c → apply_default_dcp f c ≡ some c
  unfolding apply_default_dcp
  apply_default_dcp_kept c h =
      rw
        (
          or_size_kept _ "16mb" h.dcp_buffer,
          or_size_kept _ "20mb" h.dcp_connection_buffer,
          or_number_kept _ (pos 2048) h.dcp_queue,
        )
        refl
