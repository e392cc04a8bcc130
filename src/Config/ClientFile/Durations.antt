-- ===== src/Config/ClientFile/Durations.antt =====
-- The durations of client.yaml (client.go): reconnects and the upgrades of the command lines. A
-- duration that parseDurOrZero lets through is not negative, so it is a number of nanoseconds.
use pangaea.Prelude.{ℕ, String, Bool, true, Option, none, some, Result, done, ◌==◌, if◌then◌else◌}
use pangaea.Config.Paths.{Env}
use pangaea.Config.Profiles.{◌then_do◌, non_negative}

pub record ReconnectConfig : Type 0 where
  pub initial_delay : ℕ
  pub jitter : ℕ
  pub max_delay : ℕ

pub record RawReconnectConfig : Type 0 where
  pub initial_delay : String
  pub jitter : String
  pub max_delay : String

pub record CliUpgradeConfig : Type 0 where
  pub enabled : Bool
  pub initial_delay : ℕ
  pub interval : ℕ

pub record RawCliUpgradeConfig : Type 0 where
  pub enabled : Option Bool
  pub initial_delay : String
  pub interval : String

unfoldable pub parse_dur_or_zero : Env → String → Result String ℕ
unfolding non_negative
parse_dur_or_zero env s = if s == "" then done 0 else env.parse_duration s then_do non_negative

-- if out == 0 { out = d }, and if parsed > 0 { out = parsed }
unfoldable pub or_default : ℕ → ℕ → ℕ
or_default d ℕ.zero = d
or_default d (ℕ.suc n) = ℕ.suc n

-- common.ReconnectInitial, ReconnectJitter and ReconnectMax
abbrev pub reconnect_initial : ℕ
reconnect_initial = 5000000000

abbrev pub reconnect_jitter : ℕ
reconnect_jitter = 1000000000

abbrev pub reconnect_max : ℕ
reconnect_max = 60000000000

unfoldable pub convert_reconnect : Env → RawReconnectConfig → Result String ReconnectConfig
unfolding parse_dur_or_zero or_default
convert_reconnect env rc = parse_dur_or_zero env rc.initial_delay then_do λ initial.
    parse_dur_or_zero env rc.jitter then_do λ jitter.
    parse_dur_or_zero env rc.max_delay then_do λ max. done (record {
      initial_delay = or_default reconnect_initial initial;
      jitter = or_default reconnect_jitter jitter;
      max_delay = or_default reconnect_max max;
    })

-- Enabled is true where it is not given.
abbrev pub enabled_or_default : Option Bool → Bool
enabled_or_default none = true
enabled_or_default (some b) = b

-- convertCLIUpgrade, which is all of convertMaintenance: ten minutes and a day are the defaults.
unfoldable pub convert_cli_upgrade : Env → RawCliUpgradeConfig → Result String CliUpgradeConfig
unfolding parse_dur_or_zero or_default
convert_cli_upgrade env rc = parse_dur_or_zero env rc.initial_delay then_do λ initial.
    parse_dur_or_zero env rc.interval then_do λ interval. done (record {
      enabled = enabled_or_default rc.enabled;
      initial_delay = or_default 600000000000 initial;
      interval = or_default 86400000000000 interval;
    })
