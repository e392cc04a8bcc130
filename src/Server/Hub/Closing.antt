-- ===== src/Server/Hub/Closing.antt =====
-- What `Shutdown` (hub.go) reaches.
use pangaea.Prelude.{
  ◌≡◌, refl, ap, String, List, [], ◌∷◌, Assoc, In, In-append_left, In-append_right, inl, inr,
  failed,
}
use pangaea.Server.Mediator.State.{Session}
use pangaea.Server.Hub.{
  shutdown, ProfileHub, Hub, Setup, HandshakeAuth, HubEffect, close, stop, values, close_all,
  stop_all, shut_down, register,
}

In-values : {V : Type 0} (k : String) (v : V) (m : Assoc V) → In (k, v) m → In v (values m)
In-values k v [] i = absurd i
In-values k v (e ∷ m) (inl h) = inl (ap (λ p. p.1) h)
In-values k v (e ∷ m) (inr i) = inr (In-values k v m i)

close_all-In :
    (s : Session) (ss : List Session) → In s ss → In (close s "server shutdown") (close_all ss)
unfolding close_all
close_all-In s [] i = absurd i
close_all-In s (t ∷ ss) (inl e) = inl (ap (λ x. close x "server shutdown") e)
close_all-In s (t ∷ ss) (inr i) = inr (close_all-In s ss i)

-- A session of a profile is closed, and the profile's mediator stopped.
abbrev pub Closed : String → Session → List HubEffect → Type 0
Closed name s l = In (close s "server shutdown") l × In (stop name) l

stop_all-Closed :
    (name : String) (ph : ProfileHub) (nid : String) (s : Session) (m : Assoc ProfileHub)
    → In (name, ph) m
    → In (nid, s) ph.sessions
    → Closed name s (stop_all m)
unfolding stop_all
stop_all-Closed name ph nid s [] i j = absurd i
stop_all-Closed name ph nid s ((k, p) ∷ m) (inl e) j =
    let ek : k ≡ name = ap (λ x. x.0) e in
    let ep : p ≡ ph = ap (λ x. x.1) e in
    rw (ek, ep)
      (
        In-append_left (close s "server shutdown") (close_all (values ph.sessions))
            (stop name ∷ stop_all m)
            (close_all-In s (values ph.sessions) (In-values nid s ph.sessions j)),
        In-append_right (stop name) (close_all (values ph.sessions)) (stop name ∷ stop_all m)
            (inl refl),
      )
stop_all-Closed name ph nid s ((k, p) ∷ m) (inr i) j =
    let (c, d) = stop_all-Closed name ph nid s m i j in
    (
      In-append_right (close s "server shutdown") (close_all (values p.sessions))
          (stop k ∷ stop_all m) (inr c),
      In-append_right (stop name) (close_all (values p.sessions)) (stop k ∷ stop_all m) (inr d),
    )

-- A shutdown closes every session of every profile and stops every mediator that has a session, and
-- each registration after it fails without a change.
pub shut_down-Closed :
    (env : Setup) (h : Hub) (name nid : String) (ph : ProfileHub) (s t : Session) (q : String)
    (auth : HandshakeAuth)
    → In (name, ph) h.by_profile
    → In (nid, s) ph.sessions
    → Closed name s (shut_down h).1
      × (register env (shut_down h).0 q auth t ≡ ((shut_down h).0, failed shutdown))
unfolding shut_down register
shut_down-Closed env h name nid ph s t q auth i j =
    (stop_all-Closed name ph nid s h.by_profile i j, refl)
