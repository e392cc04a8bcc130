-- ===== src/Server/Hub/Asking.antt =====
-- Whom `RequestSnapshot` asks after `Register` (hub.go).
use pangaea.Prelude.{
  ℕ, ◌≡◌, refl, sym, ◌∙◌, ap, ◌⊎◌, inl, inr, String, Bool, true, false, some, List, [], ◌∷◌, Assoc,
  In, length, filter, Result, failed, done, lookup, insert, lookup-insert, lookup-insert_self, ◌==◌,
  Bool-cases, if◌then◌else◌, suc,
}
use pangaea.Server.Mediator.State.{Session}
use pangaea.Server.Hub.{
  HubError, shutdown, ProfileHub, Hub, Setup, HandshakeAuth, HubEffect, values, is_refused,
  add_session, register_in, register_at, register, get_or_start_profile, count_sent, request_in,
  request_snapshot,
}
use pangaea.Server.Hub.Members.{sessions_of, Holds, found_or-Holds}

In-values_lookup :
    (k : String) (s : Session) (m : Assoc Session) → lookup k m ≡ some s → In s (values m)
unfolding lookup
In-values_lookup k s [] h = cc
In-values_lookup k s ((i, t) ∷ m) h = elim (Bool-cases (i == k)) [
  | inl e ↦ let g = rw e at h in inl (cc)
  | inr e ↦ inr (In-values_lookup k s m (rw e at h))
]

values-insert :
    (k : String) (s t : Session) (m : Assoc Session)
    → In t (values (insert k s m))
    → (s ≡ t) ⊎ In t (values m)
unfolding insert
values-insert k s t [] i = i
values-insert k s t ((j, u) ∷ m) i = elim (Bool-cases (j == k)) [
  | inl e ↦ elim (rw e at i) [ inl same ↦ inl same | inr below ↦ inr (inr below) ]
  | inr e ↦ elim (rw e at i) [
    | inl same ↦ inr (inl same)
    | inr below ↦ elim (values-insert k s t m below) [ inl new ↦ inl new | inr old ↦ inr (inr old) ]
  ]
]

count_sent-filter :
    (delivers : Session → Bool) (ss : List Session)
    → count_sent delivers ss ≡ length (filter delivers ss)
unfolding count_sent
count_sent-filter delivers [] = refl
count_sent-filter delivers (s ∷ ss) = elim (Bool-cases (delivers s)) [
  | inl e ↦ rw e (ap suc (count_sent-filter delivers ss))
  | inr e ↦ rw e (count_sent-filter delivers ss)
]

module _ (env : Setup) (h g : Hub) (name : String) (auth : HandshakeAuth) (s : Session)
    (effects : List HubEffect) where
  -- The profile after a registration that succeeded.
  abbrev Joined : Type 0
  Joined =
      (ph : ProfileHub) × (ph.sessions ≡ sessions_of h name)
      × (lookup name g.by_profile ≡ some (add_session ph auth s))

  register_in-Joined :
      (ph : ProfileHub)
      → Holds ph (lookup name h.by_profile)
      → register_in env h name auth s ph ≡ (g, done effects)
      → Joined
  unfolding register_in
  register_in-Joined ph holds e = elim (Bool-cases (is_refused ph auth)) [
    | inl refused ↦ let f = rw refused at e in cc
    | inr admitted ↦
        let f = rw admitted at e in
        let built = ap (λ (r : Hub × Result HubError (List HubEffect)). r.0.by_profile) f in
        (
          ph,
          holds.0,
          ap (lookup name) (sym built)
              ∙ lookup-insert_self name (add_session ph auth s) h.by_profile,
        )
  ]

  register_at-Joined :
      (r : Result HubError ProfileHub)
      → ((ph : ProfileHub) → r ≡ done ph → Holds ph (lookup name h.by_profile))
      → register_at env h name auth s r ≡ (g, done effects)
      → Joined
  unfolding register_at
  register_at-Joined (failed x) holds e = cc
  register_at-Joined (done ph) holds e = register_in-Joined ph (holds ph refl) e

  past_gate :
      (down : Bool) (r : Hub × Result HubError (List HubEffect))
      → (if down then (h, failed shutdown) else r) ≡ (g, done effects)
      → r ≡ (g, done effects)
  past_gate true r e = cc
  past_gate false r e = e

  register-Joined : register env h name auth s ≡ (g, done effects) → Joined
  unfolding register get_or_start_profile
  register-Joined e =
      register_at-Joined (get_or_start_profile env h name)
        (λ ph r. found_or-Holds env (lookup name env.profiles) (lookup name h.by_profile) ph r)
        (past_gate h.shutting_down _ e)

  module _ (delivers : Session → Bool) where
    -- The sessions asked are the new one and those of the other nodes before, and the result counts
    -- those of them that the request reached.
    abbrev pub Asked : List Session → ℕ → Type 0
    Asked asked sent =
        In s asked
        × ((nid : String) (t : Session)
            → (s.node_id == nid) ≡ false
            → lookup nid (sessions_of h name) ≡ some t
            → In t asked)
        × ((t : Session) → In t asked → (s ≡ t) ⊎ In t (values (sessions_of h name)))
        × (sent ≡ length (filter delivers asked))

    joined-Asked :
        Joined
        → (asked : List Session) × (sent : ℕ) × (request_snapshot env g delivers name
            ≡ done (asked, sent))
          × Asked asked sent
    unfolding request_snapshot request_in add_session
    joined-Asked (ph, before, after) =
        let now = insert s.node_id s (sessions_of h name) in
        (
          values now,
          count_sent delivers (values now),
          rw (after, before) refl,
          (
            In-values_lookup s.node_id s now (lookup-insert_self s.node_id s (sessions_of h name)),
            λ nid t apart there.
                In-values_lookup nid t now
                  (lookup-insert s.node_id nid s (sessions_of h name) ∙ rw apart there),
            λ t i. values-insert s.node_id s t (sessions_of h name) i,
            count_sent-filter delivers (values now),
          ),
        )

    -- After a registration that succeeds, a request for the snapshots of the profile succeeds: it
    -- asks the new session, every session that another node had before, and no session that is
    -- neither the new one nor one from before. Its result is the number of those that the request
    -- reached, whichever sends fail.
    pub request_snapshot-Asked :
        register env h name auth s ≡ (g, done effects)
        → (asked : List Session) × (sent : ℕ) × (request_snapshot env g delivers name
            ≡ done (asked, sent))
          × Asked asked sent
    request_snapshot-Asked e = joined-Asked (register-Joined e)
