-- ===== src/Server/Hub/Registering.antt =====
-- What `Register` (hub.go) leaves behind, on every branch.
use pangaea.Prelude.{
  ℕ, ◌≡◌, refl, ◌⊎◌, inl, inr, String, Bool, true, false, some, List, lookup, lookup-insert_self,
  contains, Result, failed, done, Bool-cases, arith, if◌then◌else◌, eqb,
}
use pangaea.Config.{AuthMode, mtls, jwt}
use pangaea.Server.Mediator.State.{Session}
use pangaea.Server.Hub.{
  HubError, shutdown, ProfileHub, Hub, Setup, HandshakeAuth, HubEffect, is_refused, is_cn_allowed,
  add_session, get_or_start_profile, register_in, register_at, register,
}
use pangaea.Server.Hub.Members.{
  sessions_of, identities_of, Holds, found_or-Holds, Same, put_profile-Same,
}

-- The hub after a registration that failed.
abbrev pub Untouched : Hub → Hub → Type 0
Untouched h g =
    ((q : String) → Same h g q) × (g.homes ≡ h.homes) × (g.shutting_down ≡ h.shutting_down)

-- The session is the current one of its node and of its identity, in a profile that admits it.
abbrev pub Admitted : HandshakeAuth → Session → String → Hub → Type 0
Admitted auth s name g =
    (lookup s.node_id (sessions_of g name) ≡ some s)
    × (lookup auth.identity (identities_of g name) ≡ some s)
    × (g.homes s.pointer ≡ some name)
    × ((ph : ProfileHub) × (lookup name g.by_profile ≡ some ph)
        × ((auth.mode ≡ jwt) ⊎ (contains ph.profile.allowed_clients auth.identity ≡ true)))

-- What a registration promises of its result.
abbrev pub Registers :
    Hub → HandshakeAuth → Session → String → Hub × Result HubError (List HubEffect) → Type 0
Registers h auth s name (g, failed e) = Untouched h g
Registers h auth s name (g, done effects) = (h.shutting_down ≡ false) × Admitted auth s name g

admits :
    (ph : ProfileHub) (auth : HandshakeAuth)
    → is_refused ph auth ≡ false
    → (auth.mode ≡ jwt) ⊎ (contains ph.profile.allowed_clients auth.identity ≡ true)
unfolding is_refused is_cn_allowed
admits ph auth h = go auth.mode refl
  where
    go :
        (m : AuthMode)
        → auth.mode ≡ m
        → (auth.mode ≡ jwt) ⊎ (contains ph.profile.allowed_clients auth.identity ≡ true)
    go jwt e = inl e
    go mtls e = inr (let g = rw e at h in ground arith)

eqb_self : (n : ℕ) → eqb n n ≡ true
eqb_self n = ground arith

module _ (env : Setup) (h : Hub) (name : String) (auth : HandshakeAuth) (s : Session) where
  register_in-Registers :
      (ph : ProfileHub)
      → h.shutting_down ≡ false
      → Holds ph (lookup name h.by_profile)
      → Registers h auth s name (register_in env h name auth s ph)
  unfolding register_in add_session
  register_in-Registers ph up holds = elim (Bool-cases (is_refused ph auth)) [
    | inl e ↦ rw e ((λ q. put_profile-Same h name q ph holds), refl, refl)
    | inr e ↦ rw e (
      up,
      (
        rw (lookup-insert_self name (add_session ph auth s) h.by_profile)
            (lookup-insert_self s.node_id s ph.sessions),
        rw (lookup-insert_self name (add_session ph auth s) h.by_profile)
            (lookup-insert_self auth.identity s ph.by_identity),
        rw (eqb_self s.pointer),
        (
          add_session ph auth s,
          lookup-insert_self name (add_session ph auth s) h.by_profile,
          admits ph auth e,
        ),
      ),
    )
  ]

  register_at-Registers :
      (r : Result HubError ProfileHub)
      → h.shutting_down ≡ false
      → ((ph : ProfileHub) → r ≡ done ph → Holds ph (lookup name h.by_profile))
      → Registers h auth s name (register_at env h name auth s r)
  unfolding register_at
  register_at-Registers (failed e) up holds = ((λ q. (refl, refl)), refl, refl)
  register_at-Registers (done ph) up holds = register_in-Registers ph up (holds ph refl)

  gate :
      (down : Bool) (r : Hub × Result HubError (List HubEffect))
      → (down ≡ false → Registers h auth s name r)
      → Registers h auth s name (if down then (h, failed shutdown) else r)
  gate true r up = ((λ q. (refl, refl)), refl, refl)
  gate false r up = up refl

  -- A registration that fails leaves the sessions and the identities of every profile as they were.
  -- One that succeeds does so on a hub that is not shutting down, for an identity that the profile
  -- allows or a JWT, and makes the session current for its node and its identity.
  pub register-Registers : Registers h auth s name (register env h name auth s)
  unfolding register get_or_start_profile
  register-Registers =
      gate h.shutting_down (register_at env h name auth s (get_or_start_profile env h name)) (λ up.
        register_at-Registers (get_or_start_profile env h name) up
          (λ ph r. found_or-Holds env (lookup name env.profiles) (lookup name h.by_profile) ph r))

-- Once a profile runs, a registration has one result under every profile store and every set of
-- formats, with a notifier set or unset in both.
pub register_ignores_reload :
    (env reloaded : Setup) (h : Hub) (name : String) (auth : HandshakeAuth) (s : Session)
    (ph : ProfileHub)
    → lookup name h.by_profile ≡ some ph
    → env.notifies ≡ reloaded.notifies
    → register env h name auth s ≡ register reloaded h name auth s
unfolding register get_or_start_profile register_at register_in
register_ignores_reload env reloaded h name auth s ph e n = rw (e, n)
