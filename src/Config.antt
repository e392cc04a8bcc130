-- ===== src/Config.antt =====
-- internal/config/profiles.go and auth.go: a profile as the server, its mediators and its clients
-- read it, and the modes.
pub mod Paths
pub mod Profiles
pub mod Store
pub mod ServerFile
pub mod ClientFile
use pangaea.Prelude.{ℕ, String, Bool, List}

pub record ReverseTarget : Type 0 where
  pub node_id : String
  pub transport : String
  pub url : String

-- A Profile, with the fields of its ValidateSpec and its PropagateSpec. Durations are in nanoseconds.
pub record Profile : Type 0 where
  pub name : String
  pub format : String
  pub dir : String
  pub watch_files : List String
  pub allowed_clients : List String
  pub reverse_targets : List ReverseTarget
  -- validate.strategy, validate.live_check, validate.live_check_timeout
  pub strategy : String
  pub live_check : Bool
  pub live_check_timeout : ℕ
  -- propagate.mode, propagate.cooldown
  pub mode : String
  pub cooldown : ℕ

abbrev pub propagate_mode_stale_only : String
propagate_mode_stale_only = "to_stale_only"

abbrev pub propagate_mode_all : String
propagate_mode_all = "to_all"

-- defaultPropagateCooldown
abbrev pub default_propagate_cooldown : ℕ
default_propagate_cooldown = 2000000000

pub data AuthMode : Type 0 where
  mtls jwt : AuthMode
