-- ===== src/Server/Hub.antt =====
-- internal/server/hub.go: the sessions of each profile, by node id and by identity.
pub mod Members
pub mod Registering
pub mod Leaving
pub mod Closing
pub mod Asking
use pangaea.Prelude.{
  ℕ, String, Bool, true, false, not, ◌&&◌, Option, none, some, List, [], ◌∷◌, ◌++◌, map, Assoc,
  lookup, insert, delete, contains, sort, compact, eqb, Result, failed, done, ◌==◌, if◌then◌else◌,
}
use pangaea.Config.{Profile, AuthMode, mtls, jwt}
use pangaea.Notifier.{TruthRecord, blank, event_session_connected, event_session_disconnected}
use pangaea.Server.Mediator.State.{Session}

-- The errors that the hub returns (internal/common/errors.go).
pub data HubError : Type 0 where
  shutdown profile_not_found format_not_registered config_invalid cn_mismatch : HubError

-- A profileHub; its mediator runs from its creation on. `target_path` is the mediator's.
pub record ProfileHub : Type 0 where
  pub profile : Profile
  pub format_name : String
  pub target_path : String
  pub sessions : Assoc Session
  pub by_identity : Assoc Session

-- A Hub. `homes` has the field `hub` of each session, by the session's identity as an object.
pub record Hub : Type 0 where
  pub by_profile : Assoc ProfileHub
  pub homes : ℕ → Option String
  pub shutting_down : Bool

-- A format as the hub asks for it: formats.Get, and ResolveCredentialPath, which may fail.
pub record Registered : Type 0 where
  pub name : String
  pub resolve_credential_path : String → Option String

-- What the hub reads: the profile store, the registry, and whether notifyFn is set.
pub record Setup : Type 0 where
  pub profiles : Assoc Profile
  pub formats : Assoc Registered
  pub notifies : Bool

pub record HandshakeAuth : Type 0 where
  pub mode : AuthMode
  pub identity : String
  pub peer_cn : String
  pub jwt_profiles : List String
  pub needs_jwt : Bool

-- What the hub does beside its state: it closes a connection, tells the mediator of a profile that a
-- node left, sends a request to a session, stops a mediator, or notifies.
pub data HubEffect : Type 0 where
  close : Session → String → HubEffect
  notify_disconnect : String → String → HubEffect
  stop : String → HubEffect
  notify : TruthRecord → HubEffect

abbrev pub auth_mode_text : AuthMode → String
auth_mode_text mtls = "mtls"
auth_mode_text jwt = "jwt"

abbrev pub values : {V : Type 0} → Assoc V → List V
values m = map (λ e. e.1) m

-- snapshotNodeIDs
unfoldable pub snapshot_node_ids : ProfileHub → List String
snapshot_node_ids ph = compact (sort (map (λ s. s.node_id) (values ph.sessions)))

unfoldable pub is_cn_allowed : Profile → String → Bool
is_cn_allowed p cn = contains p.allowed_clients cn

unfoldable pub started : Profile → Registered → Option String → Result HubError ProfileHub
started p f none = failed config_invalid
started p f (some path) = done (record {
  profile = p;
  format_name = f.name;
  target_path = path;
  sessions = [];
  by_identity = [];
})

unfoldable pub with_format : Profile → Option Registered → Result HubError ProfileHub
unfolding started
with_format p none = failed format_not_registered
with_format p (some f) = started p f (f.resolve_credential_path p.dir)

unfoldable pub start_profile : Setup → Option Profile → Result HubError ProfileHub
unfolding with_format
start_profile env none = failed profile_not_found
start_profile env (some p) = with_format p (lookup p.format env.formats)

abbrev pub found_or : Option ProfileHub → Result HubError ProfileHub → Result HubError ProfileHub
found_or (some ph) r = done ph
found_or none r = r

-- getOrStartProfile, without the store into byProfile.
unfoldable pub get_or_start_profile : Setup → Hub → String → Result HubError ProfileHub
unfolding start_profile
get_or_start_profile env h name =
    found_or (lookup name h.by_profile) (start_profile env (lookup name env.profiles))

abbrev pub put_profile : Hub → String → ProfileHub → Hub
put_profile h name ph = record h { by_profile = insert name ph h.by_profile }

-- if auth.mode == mtls && !isCNAllowed(...)
unfoldable pub is_refused : ProfileHub → HandshakeAuth → Bool
unfolding is_cn_allowed
is_refused ph auth = elim auth.mode [
  | mtls ↦ not (is_cn_allowed ph.profile auth.identity)
  | jwt ↦ false
]

unfoldable pub add_session : ProfileHub → HandshakeAuth → Session → ProfileHub
add_session ph auth s = record ph {
  sessions = insert s.node_id s ph.sessions;
  by_identity = insert auth.identity s ph.by_identity;
}

abbrev pub set_home : ℕ → String → (ℕ → Option String) → ℕ → Option String
set_home p name homes q = if eqb p q then some name else homes q

unfoldable pub displaced : Option Session → List HubEffect
displaced none = []
displaced (some prev) = close prev "session displaced by newer connection" ∷ []

abbrev pub notice : Setup → ProfileHub → String → String → Session → List HubEffect
notice env ph profile_name kind s =
    if env.notifies
    then notify (record blank {
      profile = profile_name;
      format = ph.format_name;
      event_kind = kind;
      node_id = s.node_id;
      peer_cn = s.peer_cn;
      auth_mode = auth_mode_text s.auth_mode;
      nodes = snapshot_node_ids ph;
    })
      ∷ []
    else []

-- Register once the profile is at hand.
unfoldable pub register_in :
    Setup
    → Hub
    → String
    → HandshakeAuth
    → Session
    → ProfileHub
    → Hub × Result HubError (List HubEffect)
unfolding is_refused add_session displaced
register_in env h name auth s ph =
    if is_refused ph auth then (put_profile h name ph, failed cn_mismatch) else (
      record h {
        by_profile = insert name (add_session ph auth s) h.by_profile;
        homes = set_home s.pointer name h.homes;
      },
      done (
          displaced (lookup auth.identity ph.by_identity)
          ++ notice env (add_session ph auth s) name event_session_connected s),
    )

unfoldable pub register_at :
    Setup
    → Hub
    → String
    → HandshakeAuth
    → Session
    → Result HubError ProfileHub
    → Hub × Result HubError (List HubEffect)
unfolding register_in
register_at env h name auth s (failed e) = (h, failed e)
register_at env h name auth s (done ph) = register_in env h name auth s ph

unfoldable pub register :
    Setup → Hub → String → HandshakeAuth → Session → Hub × Result HubError (List HubEffect)
unfolding get_or_start_profile register_at
register env h name auth s =
    if h.shutting_down
    then (h, failed shutdown)
    else register_at env h name auth s (get_or_start_profile env h name)

-- cur, ok := m[k]; ok && cur == s
unfoldable pub is_current : Session → Option Session → Bool
is_current s none = false
is_current s (some cur) = eqb cur.pointer s.pointer

unfoldable pub drop_current : Session → String → Assoc Session → Assoc Session
unfolding is_current
drop_current s k m = if is_current s (lookup k m) then delete k m else m

unfoldable pub remove_session : ProfileHub → Session → ProfileHub
unfolding drop_current
remove_session ph s = record ph {
  sessions = drop_current s s.node_id ph.sessions;
  by_identity = drop_current s s.identity ph.by_identity;
}

unfoldable pub unregister_from : Setup → Hub → String → Session → ProfileHub → Hub × List HubEffect
unfolding remove_session is_current
unregister_from env h name s ph = (
  put_profile h name (remove_session ph s),
  if is_current s (lookup s.node_id ph.sessions)
      then notify_disconnect name s.node_id
        ∷ notice env (remove_session ph s) ph.profile.name event_session_disconnected s
      else [],
)

unfoldable pub unregister_at :
    Setup → Hub → String → Session → Option ProfileHub → Hub × List HubEffect
unfolding unregister_from
unregister_at env h name s none = (h, [])
unregister_at env h name s (some ph) = unregister_from env h name s ph

-- A home names a profile hub that was stored before: no other case arises.
unfoldable pub unregister_home : Setup → Hub → Session → Option String → Hub × List HubEffect
unfolding unregister_at
unregister_home env h s none = (h, [])
unregister_home env h s (some name) = unregister_at env h name s (lookup name h.by_profile)

unfoldable pub unregister : Setup → Hub → Session → Hub × List HubEffect
unfolding unregister_home
unregister env h s = unregister_home env h s (h.homes s.pointer)

-- The sends of RequestSnapshot: the sessions asked, and how many sends succeeded.
unfoldable pub count_sent : (Session → Bool) → List Session → ℕ
count_sent delivers [] = 0
count_sent delivers (s ∷ ss) =
    let rest = count_sent delivers ss in if delivers s then ℕ.suc rest else rest

unfoldable pub request_in :
    (Session → Bool) → Option ProfileHub → Option Profile → Result HubError (List Session × ℕ)
unfolding count_sent
request_in delivers (some ph) p =
    done (values ph.sessions, count_sent delivers (values ph.sessions))
request_in delivers none none = failed profile_not_found
request_in delivers none (some p) = done ([], 0)

unfoldable pub request_snapshot :
    Setup → Hub → (Session → Bool) → String → Result HubError (List Session × ℕ)
unfolding request_in
request_snapshot env h delivers name =
    request_in delivers (lookup name h.by_profile) (lookup name env.profiles)

unfoldable pub close_all : List Session → List HubEffect
close_all [] = []
close_all (s ∷ ss) = close s "server shutdown" ∷ close_all ss

unfoldable pub stop_all : Assoc ProfileHub → List HubEffect
unfolding close_all
stop_all [] = []
stop_all ((name, ph) ∷ rest) = close_all (values ph.sessions) ++ stop name ∷ stop_all rest

unfoldable pub shut_down : Hub → Hub × List HubEffect
unfolding stop_all
shut_down h = (record h { shutting_down = true }, stop_all h.by_profile)
