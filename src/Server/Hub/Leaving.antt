-- ===== src/Server/Hub/Leaving.antt =====
-- What `Unregister` (hub.go) removes.
use pangaea.Prelude.{
  ◌≡◌, ◌≢◌, refl, sym, subst, inl, inr, String, true, false, Option, none, some, [], Assoc, lookup,
  lookup-insert, lookup-insert_self, lookup-delete, some_inj, Bool-cases, arith, eq_iff, eq_refl,
  ◌==◌, eqb,
}
use pangaea.Server.Mediator.State.{Session}
use pangaea.Server.Hub.{
  ProfileHub, Hub, Setup, put_profile, is_current, drop_current, remove_session, unregister_from,
  unregister_at, unregister_home, unregister,
}
use pangaea.Server.Hub.Members.{sessions_of}

-- A map keeps the entries of other sessions, and the session's own key no longer finds it.
drop_spares :
    (s : Session) (k j : String) (m : Assoc Session) (cur : Session)
    → lookup j m ≡ some cur
    → cur.pointer ≢ s.pointer
    → lookup j (drop_current s k m) ≡ some cur
unfolding drop_current is_current
drop_spares s k j m cur e ne = elim (Bool-cases (is_current s (lookup k m))) [
  | inr f ↦ rw f e
  | inl f ↦ rw f (
      rw (lookup-delete k j m) (elim (Bool-cases (k == j)) [
        | inr g ↦ rw g e
        | inl g ↦
            let same : lookup k m ≡ some cur =
              subst (λ i. lookup i m ≡ some cur) (sym ((eq_iff k j).0 g)) e in
            let hit : eqb cur.pointer s.pointer ≡ true = rw same at f in absurd (ne (ground arith))
      ]))
]

drop_leaves :
    (s : Session) (k : String) (m : Assoc Session)
    → is_current s (lookup k (drop_current s k m)) ≡ false
unfolding drop_current is_current
drop_leaves s k m = elim (Bool-cases (is_current s (lookup k m))) [
  | inr f ↦ rw f f
  | inl f ↦ rw f (rw (lookup-delete k k m) (rw (eq_refl k)))
]

module _ (env : Setup) (h : Hub) (s : Session) where
  abbrev pub gone : Hub
  gone = (unregister env h s).0

  at_spares :
      (name q nid : String) (o : Option ProfileHub) (cur : Session)
      → lookup name h.by_profile ≡ o
      → lookup nid (sessions_of h q) ≡ some cur
      → cur.pointer ≢ s.pointer
      → lookup nid (sessions_of (unregister_at env h name s o).0 q) ≡ some cur
  unfolding unregister_at unregister_from remove_session
  at_spares name q nid none cur eo e ne = e
  at_spares name q nid (some ph) cur eo e ne =
      rw (lookup-insert name q (remove_session ph s) h.by_profile) (elim (Bool-cases (name == q)) [
        | inr g ↦ rw g e
        | inl g ↦ rw g (
            drop_spares s s.node_id nid ph.sessions cur (rw (sym ((eq_iff name q).0 g), eo) at e)
              ne)
      ])

  home_spares :
      (o : Option String) (q nid : String) (cur : Session)
      → lookup nid (sessions_of h q) ≡ some cur
      → cur.pointer ≢ s.pointer
      → lookup nid (sessions_of (unregister_home env h s o).0 q) ≡ some cur
  unfolding unregister_home
  home_spares none q nid cur e ne = e
  home_spares (some name) q nid cur e ne =
      at_spares name q nid (lookup name h.by_profile) cur refl e ne

  -- The end of a session never removes another session, one that took its node id included, from
  -- the sessions of any profile.
  pub unregister_spares :
      (q nid : String) (cur : Session)
      → lookup nid (sessions_of h q) ≡ some cur
      → cur.pointer ≢ s.pointer
      → lookup nid (sessions_of gone q) ≡ some cur
  unfolding unregister
  unregister_spares q nid cur e ne = home_spares (h.homes s.pointer) q nid cur e ne

  from_twice :
      (name : String) (ph : ProfileHub) (g : Hub)
      → lookup name g.by_profile ≡ some (remove_session ph s)
      → (unregister_at env g name s (lookup name g.by_profile)).1 ≡ []
  unfolding unregister_at unregister_from remove_session
  from_twice name ph g e = rw e (rw (drop_leaves s s.node_id ph.sessions))

  at_twice :
      (name : String) (o : Option ProfileHub)
      → lookup name h.by_profile ≡ o
      → (unregister_at env
          (unregister_at env h name s o).0
          name
          s
          (lookup name (unregister_at env h name s o).0.by_profile)).1
        ≡ []
  unfolding unregister_at unregister_from
  at_twice name none eo = rw eo
  at_twice name (some ph) eo =
      from_twice name ph (put_profile h name (remove_session ph s))
        (lookup-insert_self name (remove_session ph s) h.by_profile)

  home_kept :
      (name : String) (o : Option ProfileHub) → (unregister_at env h name s o).0.homes ≡ h.homes
  unfolding unregister_at unregister_from
  home_kept name none = refl
  home_kept name (some ph) = refl

  home_twice :
      (o : Option String)
      → h.homes s.pointer ≡ o
      → (unregister env (unregister_home env h s o).0 s).1 ≡ []
  unfolding unregister unregister_home
  home_twice none e = rw e
  home_twice (some name) e =
      rw (home_kept name (lookup name h.by_profile), e)
        (at_twice name (lookup name h.by_profile) refl)

  -- The end of a session that has ended is silent: no disconnect reaches the mediator twice, and no
  -- notification is sent twice.
  pub unregister_twice : (unregister env gone s).1 ≡ []
  unfolding unregister
  unregister_twice = home_twice (h.homes s.pointer) refl

  at_leaves :
      (name : String) (o : Option ProfileHub)
      → lookup name h.by_profile ≡ o
      → is_current s (lookup s.node_id (sessions_of (unregister_at env h name s o).0 name)) ≡ false
  unfolding unregister_at unregister_from remove_session is_current lookup
  at_leaves name none eo = rw eo
  at_leaves name (some ph) eo =
      rw (lookup-insert_self name (remove_session ph s) h.by_profile)
        (drop_leaves s s.node_id ph.sessions)

  home_leaves :
      (name : String) (o : Option String)
      → o ≡ some name
      → is_current s (lookup s.node_id (sessions_of (unregister_home env h s o).0 name)) ≡ false
  unfolding unregister_home
  home_leaves name none e = cc
  home_leaves name (some other) e =
      subst
        (λ q.
          is_current s (lookup s.node_id (sessions_of (unregister_home env h s (some other)).0 q))
          ≡ false)
        (some_inj e) (at_leaves other (lookup other h.by_profile) refl)

  -- A session whose end is done is not the current one of its node.
  pub unregister_leaves :
      (name : String)
      → h.homes s.pointer ≡ some name
      → is_current s (lookup s.node_id (sessions_of gone name)) ≡ false
  unfolding unregister
  unregister_leaves name e = home_leaves name (h.homes s.pointer) e
