-- ===== src/Config/Applied.antt =====
-- ApplyDefaults as a whole, for config/dcp.go.
use go_dcp.Prelude.{
  ◌++◌, codes, [], ◌∷◌, ◌≡◌, ◌≢◌, refl, inl, inr, ◌⊎◌, ℤ, true, false, Bool, some, String, arith,
}
use go_dcp.Strconv.{itoa}
use go_dcp.Helpers.DataUnits.{Floats, IsExact}
use go_dcp.Config.Types.{Size, Dcp}
use go_dcp.Config.Complete
use go_dcp.Config.Complete.{IsComplete, or_number_kept, or_text_kept, or_default_collection_kept}
use go_dcp.Config.Filled.{
  from_env_again, HasNumbers, numbered, apply_default_group_membership_lem,
  apply_default_group_membership_kept, or_size_set, apply_default_connection_buffer_size_kept,
  apply_default_dcp_kept,
}
use go_dcp.Config.Defaults.{
  or_text, or_size, apply_logging, apply_defaults, apply_default_rollback_mitigation,
  apply_default_checkpoint, apply_default_health_check, apply_default_connection_timeout,
  apply_default_collections, apply_default_scope_name, apply_default_max_queue_size,
  apply_default_metrics, apply_default_api, apply_default_leader_election, apply_default_metadata,
  apply_default_connection_buffer_size, apply_default_dcp, apply_default_group_membership,
}
use go_dcp.Config.Stages.{
  IsKept, first_steps, second_steps, third_steps, with_dcp_sizes, last_steps, filled,
  filled-IsComplete, filled-IsKept,
}

mb_20 : codes "20mb" ≡ itoa 20 ++ (b'm' ∷ b'b' ∷ [])
unfolding itoa
mb_20 = refl

mb_16 : codes "16mb" ≡ itoa 16 ++ (b'm' ∷ b'b' ∷ [])
unfolding itoa
mb_16 = refl

module _ (f : Floats) (exact : IsExact f) (getenv : String → String)
    (is_level : String → Bool) where
  -- With every default there, ApplyDefaults finds nothing to do.
  apply_defaults_kept :
      (c : Dcp)
      → IsComplete c
      → HasNumbers getenv c c.dcp.group.membership.total_members
          c.dcp.group.membership.member_number
      → apply_defaults f getenv is_level true c ≡ some c
  unfolding apply_defaults apply_logging
  apply_defaults_kept c h numbers =
      rw
        (
          Complete.apply_default_rollback_mitigation_kept c h,
          Complete.apply_default_checkpoint_kept c h,
          Complete.apply_default_health_check_kept c h,
          apply_default_group_membership_kept getenv c h numbers,
          Complete.apply_default_connection_timeout_kept c h,
          Complete.apply_default_collections_kept c h,
          Complete.apply_default_scope_name_kept c h,
          apply_default_connection_buffer_size_kept f exact c h,
          Complete.apply_default_max_queue_size_kept c h,
          Complete.apply_default_metrics_kept c h,
          Complete.apply_default_api_kept c h,
          Complete.apply_default_leader_election_kept c h,
          apply_default_dcp_kept f exact c h,
          Complete.apply_default_metadata_kept c h,
        )
        refl

  first_steps-numbers :
      (c : Dcp) (total number : ℤ)
      → HasNumbers getenv c total number
      → apply_default_group_membership getenv (first_steps getenv c)
        ≡ some (numbered getenv (first_steps getenv c) total number)
  unfolding apply_default_rollback_mitigation apply_default_checkpoint apply_default_health_check
  first_steps-numbers c total number h =
      apply_default_group_membership_lem getenv (first_steps getenv c) total number h

  second_steps-size :
      (c : Dcp) (total number : ℤ) (size : Size)
      → or_size f c.connection_buffer_size "20mb" ≡ some (some size)
      → apply_default_connection_buffer_size f (second_steps getenv c total number)
        ≡ some (record (second_steps getenv c total number) { connection_buffer_size = some size })
  unfolding apply_default_rollback_mitigation apply_default_checkpoint apply_default_health_check
      apply_default_connection_timeout apply_default_collections apply_default_scope_name
      apply_default_connection_buffer_size
  second_steps-size c total number size e = rw e refl

  third_steps-size :
      (c : Dcp) (total number : ℤ) (size dcp_size connection_size : Size)
      → or_size f c.dcp.buffer_size "16mb" ≡ some (some dcp_size)
      → or_size f c.dcp.connection_buffer_size "20mb" ≡ some (some connection_size)
      → apply_default_dcp f (third_steps getenv c total number size)
        ≡ some (with_dcp_sizes (third_steps getenv c total number size) dcp_size connection_size)
  unfolding apply_default_rollback_mitigation apply_default_checkpoint apply_default_health_check
      apply_default_connection_timeout apply_default_collections apply_default_scope_name
      apply_default_max_queue_size apply_default_metrics apply_default_api
      apply_default_leader_election apply_default_dcp
  third_steps-size c total number size dcp_size connection_size e1 e2 = rw (e1, e2) refl

  apply_logging-level :
      (c : Dcp) (logs : Bool)
      → (logs ≡ true) ⊎ (is_level (or_text c.logging.level "info") ≡ true)
      → (level : String) × (apply_logging is_level logs c
          ≡ some (record c { logging = record c.logging { level = level } }))
        × (c.logging.level ≢ "" → level ≡ c.logging.level)
  unfolding apply_logging
  apply_logging-level c true h = (c.logging.level, refl, λ set. refl)
  apply_logging-level c false (inl h) = absurd (ground arith)
  apply_logging-level c false (inr h) =
      (or_text c.logging.level "info", rw h refl, λ set. or_text_kept c.logging.level "info" set)

  apply_defaults-filled :
      (c : Dcp) (logs : Bool) (total number : ℤ) (size dcp_size connection_size : Size)
      → HasNumbers getenv c total number
      → or_size f c.connection_buffer_size "20mb" ≡ some (some size)
      → or_size f c.dcp.buffer_size "16mb" ≡ some (some dcp_size)
      → or_size f c.dcp.connection_buffer_size "20mb" ≡ some (some connection_size)
      → (logs ≡ true)
        ⊎ (is_level (
              or_text
                (last_steps getenv c total number size dcp_size connection_size).logging.level
                "info")
            ≡ true)
      → (level : String) × (apply_defaults f getenv is_level logs c
          ≡ some (filled getenv c total number size dcp_size connection_size level))
        × (c.logging.level ≢ "" → level ≡ c.logging.level)
  unfolding apply_defaults apply_default_rollback_mitigation apply_default_checkpoint
      apply_default_health_check apply_default_connection_timeout apply_default_collections
      apply_default_scope_name apply_default_max_queue_size apply_default_metrics apply_default_api
      apply_default_leader_election apply_default_metadata
  apply_defaults-filled c logs total number size dcp_size connection_size numbers e1 e2 e3 h =
      let (level, e, kept) =
        apply_logging-level (last_steps getenv c total number size dcp_size connection_size) logs
          h in
      (
        level,
        rw
            (
              first_steps-numbers c total number numbers,
              second_steps-size c total number size e1,
              third_steps-size c total number size dcp_size connection_size e2 e3,
            )
            e,
        kept,
      )

  pub apply_defaults_lem :
      (c : Dcp) (logs : Bool) (total number : ℤ)
      → HasNumbers getenv c total number
      → (logs ≡ true) ⊎ (is_level (or_text c.logging.level "info") ≡ true)
      → (d : Dcp) × (apply_defaults f getenv is_level logs c ≡ some d)
        × IsComplete d
        × IsKept c d
        × (d.dcp.group.membership.total_members ≡ total)
        × (d.dcp.group.membership.member_number ≡ number)
        × (apply_defaults f getenv is_level true d ≡ some d)
  unfolding apply_default_rollback_mitigation apply_default_checkpoint apply_default_health_check
      apply_default_connection_timeout apply_default_collections apply_default_scope_name
      apply_default_max_queue_size apply_default_metrics apply_default_api
      apply_default_leader_election apply_default_metadata
  apply_defaults_lem c logs total number numbers h =
      let (size, e1, kept1) =
        or_size_set f exact c.connection_buffer_size "20mb" 20 mb_20 (omega arith) in
      let (dcp_size, e2, kept2) =
        or_size_set f exact c.dcp.buffer_size "16mb" 16 mb_16 (omega arith) in
      let (connection_size, e3, kept3) =
        or_size_set f exact c.dcp.connection_buffer_size "20mb" 20 mb_20 (omega arith) in
      let (level, e, kept) =
        apply_defaults-filled c logs total number size dcp_size connection_size numbers e1 e2 e3
          h in
      let complete = filled-IsComplete getenv c total number size dcp_size connection_size level in
      (
        filled getenv c total number size dcp_size connection_size level,
        e,
        complete,
        filled-IsKept getenv c total number size dcp_size connection_size level kept1 kept2 kept3
            kept,
        refl,
        refl,
        apply_defaults_kept _ complete (
          from_env_again _ c.dcp.group.membership.total_members total numbers.0,
          from_env_again _ c.dcp.group.membership.member_number number numbers.1,
        ),
      )
