-- ===== src/Server/Hub/Members.antt =====
-- Who is a member of a profile hub (hub.go) after a registration and after its end.
use pangaea.Prelude.{
  ◌≡◌, refl, ◌∙◌, ap, inl, inr, String, Option, none, some, [], Assoc, lookup, lookup-insert, done,
  Bool-cases, arith, eq_iff, ◌==◌,
}
use pangaea.Config.{Profile}
use pangaea.Server.Mediator.State.{Session}
use pangaea.Server.Hub.{
  ProfileHub, Hub, Setup, put_profile, started, with_format, start_profile, found_or, Registered,
}

abbrev pub sessions_in : Option ProfileHub → Assoc Session
sessions_in none = []
sessions_in (some ph) = ph.sessions

abbrev pub identities_in : Option ProfileHub → Assoc Session
identities_in none = []
identities_in (some ph) = ph.by_identity

-- The sessions of a profile by node id, and by identity.
abbrev pub sessions_of : Hub → String → Assoc Session
sessions_of h q = sessions_in (lookup q h.by_profile)

abbrev pub identities_of : Hub → String → Assoc Session
identities_of h q = identities_in (lookup q h.by_profile)

abbrev pub Holds : ProfileHub → Option ProfileHub → Type 0
Holds ph o = (ph.sessions ≡ sessions_in o) × (ph.by_identity ≡ identities_in o)

start_profile-Holds :
    (env : Setup) (o : Option Profile) (ph : ProfileHub)
    → start_profile env o ≡ done ph
    → Holds ph none
unfolding start_profile
start_profile-Holds env none ph e = cc
start_profile-Holds env (some p) ph e = with_format-Holds p (lookup p.format env.formats) ph e
  where
    started-Holds :
        (p : Profile) (f : Registered) (o : Option String) (ph : ProfileHub)
        → started p f o ≡ done ph
        → Holds ph none
    started-Holds p f none ph e = cc
    started-Holds p f (some path) ph e = ground arith

    with_format-Holds :
        (p : Profile) (o : Option Registered) (ph : ProfileHub)
        → with_format p o ≡ done ph
        → Holds ph none
    with_format-Holds p none ph e = cc
    with_format-Holds p (some f) ph e = started-Holds p f (f.resolve_credential_path p.dir) ph e

-- The profile hub that a registration finds or starts has the sessions that were there.
pub found_or-Holds :
    (env : Setup) (q : Option Profile) (o : Option ProfileHub) (ph : ProfileHub)
    → found_or o (start_profile env q) ≡ done ph
    → Holds ph o
found_or-Holds env q none ph e = start_profile-Holds env q ph e
found_or-Holds env q (some old) ph e = ground arith

abbrev pub Same : Hub → Hub → String → Type 0
Same h g q = (sessions_of g q ≡ sessions_of h q) × (identities_of g q ≡ identities_of h q)

pub put_profile-Same :
    (h : Hub) (name q : String) (ph : ProfileHub)
    → Holds ph (lookup name h.by_profile)
    → Same h (put_profile h name ph) q
put_profile-Same h name q ph (es, ei) =
    rw (lookup-insert name q ph h.by_profile) (elim (Bool-cases (name == q)) [
      | inl e ↦
          let f : name ≡ q = (eq_iff name q).0 e in
          rw e (es ∙ ap (sessions_of h) f, ei ∙ ap (identities_of h) f)
      | inr e ↦ rw e (refl, refl)
    ])
