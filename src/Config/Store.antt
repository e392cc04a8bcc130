-- ===== src/Config/Store.antt =====
-- internal/config/store.go: the profiles that the server holds, and who is told of a reload. A
-- subscriber's channel has room for one list of profiles. A Reload runs to its end before the next.
pub mod Reloads
use pangaea.Prelude.{
  ℕ, zero, suc, String, Bool, true, false, Option, none, some, List, [], ◌∷◌, ◌++◌, map, Result,
  failed, done, ◌==◌, if◌then◌else◌,
}
use pangaea.Config.{Profile}

abbrev pub Channel : Type 0
Channel = Option (List Profile)

pub record Store : Type 0 where
  pub profiles : List Profile
  pub subscribers : List Channel

-- NewProfileStore
unfoldable pub new_profile_store : Option (List Profile) → Store
new_profile_store none = record { profiles = []; subscribers = [] }
new_profile_store (some initial) = record { profiles = initial; subscribers = [] }

unfoldable pub find_profile : String → List Profile → Option Profile
find_profile name [] = none
find_profile name (p ∷ ps) = if p.name == name then some p else find_profile name ps

-- Get
unfoldable pub get : Store → String → Option Profile
unfolding find_profile
get s name = find_profile name s.profiles

-- List
unfoldable pub list_profiles : Store → List Profile
list_profiles s = s.profiles

-- A send that does not block, with whether it was made, and a receive that does not.
unfoldable pub try_send : List Profile → Channel → Bool × Channel
try_send snapshot none = (true, some snapshot)
try_send snapshot (some queued) = (false, some queued)

unfoldable pub receive : Channel → Option (List Profile) × Channel
receive none = (none, none)
receive (some queued) = (some queued, none)

-- The two selects of Reload, for one subscriber.
unfoldable pub offer : List Profile → Channel → Channel
unfolding try_send receive
offer snapshot ch =
    let first = try_send snapshot ch in
    if first.0 then first.1 else (try_send snapshot (receive first.1).1).1

-- Reload, with the result of LoadProfiles.
unfoldable pub reload : Store → Result String (List Profile) → Store × Option String
unfolding offer
reload s (failed e) = (s, some e)
reload s (done ps) = (record { profiles = ps; subscribers = map (offer ps) s.subscribers }, none)

-- Subscribe, whose channel is the last of the subscribers.
unfoldable pub subscribe : Store → Store
subscribe s = record s { subscribers = s.subscribers ++ (none ∷ []) }

-- A subscriber's own receive.
unfoldable pub receive_at : ℕ → List Channel → Option (List Profile) × List Channel
unfolding receive
receive_at k [] = (none, [])
receive_at zero (ch ∷ chs) = ((receive ch).0, (receive ch).1 ∷ chs)
receive_at (suc k) (ch ∷ chs) = let below = receive_at k chs in (below.0, ch ∷ below.1)

-- What the server does with its store over time, and what the receives of subscribers bring.
pub data Step : Type 0 where
  reloading : Result String (List Profile) → Step
  subscribing : Step
  receiving : ℕ → Step

unfoldable pub step : Store → Step → Store × List (List Profile)
unfolding reload subscribe receive_at
step s (reloading r) = ((reload s r).0, [])
step s subscribing = (subscribe s, [])
step s (receiving k) = (
  record s { subscribers = (receive_at k s.subscribers).1 },
  elim (receive_at k s.subscribers).0 [ none ↦ [] | some ps ↦ ps ∷ [] ],
)

unfoldable pub run : Store → List Step → Store
unfolding step
run s [] = s
run s (x ∷ xs) = run (step s x).0 xs
