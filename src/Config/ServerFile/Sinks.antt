-- ===== src/Config/ServerFile/Sinks.antt =====
-- internal/config/server.go: the notifier's part of server.yaml. The webhook sinks, Slack, Discord,
-- Mattermost and Teams, are checked by the same code.
use pangaea.Prelude.{
  String, Bool, false, not, ◌&&◌, ◌||◌, List, [], ◌∷◌, is_nil, Result, failed, done, leb, ◌==◌,
  if◌then◌else◌, ℤ, is_negative, magnitude,
}
use pangaea.Config.Paths.{Env}
use pangaea.Config.Profiles.{◌then_do◌}

-- A route of a sink: one profile and account, and the variable with its URL. Telegram's has a chat.
pub record Route : Type 0 where
  pub profile : String
  pub account : String
  pub url_env : String

-- SlackConfig, DiscordConfig, MattermostConfig and TeamsConfig, and NtfyConfig less its token, its
-- tags and its priority.
pub record SinkConfig : Type 0 where
  pub enabled : Bool
  pub default_url_env : String
  pub interval : ℤ
  pub interval_raw : String
  pub probe_timeout : ℤ
  pub probe_timeout_raw : String
  pub routes : List Route

pub record TelegramConfig : Type 0 where
  pub enabled : Bool
  pub bot_token_env : String
  pub default_chat_id : String
  pub interval : ℤ
  pub interval_raw : String
  pub probe_timeout : ℤ
  pub probe_timeout_raw : String
  pub routes : List Route

pub record NtfyConfig : Type 0 where
  pub sink : SinkConfig
  pub priority : ℤ

pub record NotifierConfig : Type 0 where
  pub telegram : TelegramConfig
  pub slack : SinkConfig
  pub discord : SinkConfig
  pub mattermost : SinkConfig
  pub ntfy : NtfyConfig
  pub teams : SinkConfig

-- parseDur, which keeps what was there for the empty text.
unfoldable pub parse_dur : Env → ℤ → String → Result String ℤ
parse_dur env old raw = if raw == "" then done old else env.parse_duration raw

unfoldable pub has_unset_route : List Route → Bool
has_unset_route [] = false
has_unset_route (r ∷ rs) = r.url_env == "" || has_unset_route rs

-- The checks of a sink that is enabled.
unfoldable pub check_sink : SinkConfig → Result String SinkConfig
unfolding has_unset_route
check_sink s =
    if not s.enabled
    then done s
    else if s.default_url_env == "" && is_nil s.routes
    then failed "notifier sink needs a default or at least one route"
    else if has_unset_route s.routes
    then failed "notifier sink: the variable of a route is required"
    else done s

-- postProcessSlack, postProcessDiscord, postProcessMattermost and postProcessTeams
unfoldable pub post_process_sink : Env → SinkConfig → Result String SinkConfig
unfolding parse_dur check_sink
post_process_sink env s = parse_dur env s.interval s.interval_raw then_do λ interval.
    parse_dur env s.probe_timeout s.probe_timeout_raw then_do λ probe_timeout.
    check_sink (record s { interval = interval; probe_timeout = probe_timeout })

-- n.Priority != 0 && (n.Priority < 1 || n.Priority > 5)
abbrev pub is_priority : ℤ → Bool
is_priority p = not (is_negative p) && leb (magnitude p) 5

unfoldable pub check_priority : NtfyConfig → Result String NtfyConfig
check_priority n =
    if n.sink.enabled && not (is_priority n.priority)
    then failed "notifier.ntfy.priority must be 1..5"
    else done n

-- postProcessNtfy
unfoldable pub post_process_ntfy : Env → NtfyConfig → Result String NtfyConfig
unfolding post_process_sink check_priority
post_process_ntfy env n =
    post_process_sink env n.sink then_do λ sink. check_priority (record n { sink = sink })

unfoldable pub check_telegram : TelegramConfig → Result String TelegramConfig
check_telegram t =
    if not t.enabled
    then done t
    else if t.bot_token_env == ""
    then failed "notifier.telegram.bot_token_env is required when telegram is enabled"
    else if t.default_chat_id == "" && is_nil t.routes
    then failed "notifier.telegram needs default_chat_id or at least one route"
    else done t

unfoldable pub post_process_telegram : Env → TelegramConfig → Result String TelegramConfig
unfolding parse_dur check_telegram
post_process_telegram env t = parse_dur env t.interval t.interval_raw then_do λ interval.
    parse_dur env t.probe_timeout t.probe_timeout_raw then_do λ probe_timeout.
    check_telegram (record t { interval = interval; probe_timeout = probe_timeout })

-- postProcessNotifier
unfoldable pub post_process_notifier : Env → NotifierConfig → Result String NotifierConfig
unfolding post_process_telegram post_process_sink post_process_ntfy
post_process_notifier env n = post_process_telegram env n.telegram then_do λ telegram.
    post_process_sink env n.slack then_do λ slack.
    post_process_sink env n.discord then_do λ discord.
    post_process_sink env n.mattermost then_do λ mattermost.
    post_process_ntfy env n.ntfy then_do λ ntfy. post_process_sink env n.teams then_do λ teams.
    done (record {
      telegram = telegram;
      slack = slack;
      discord = discord;
      mattermost = mattermost;
      ntfy = ntfy;
      teams = teams;
    })
