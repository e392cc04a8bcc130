-- ===== src/Config/Store/Reloads.antt =====
-- What the profile store (store.go) promises over time, against the list of its reloads.
use pangaea.Prelude.{
  ℕ, zero, suc, ◌≡◌, refl, sym, ◌∙◌, ap, subst, String, false, none, some, List, [], ◌∷◌, map,
  failed, done, ◌==◌, ◌⊎◌, inl, inr, All, All-append, In, contains, eq_refl, arith,
}
use pangaea.Config.{Profile}
use pangaea.Config.Profiles.Valid.{FreshProfiles}
use pangaea.Config.Store.{
  Channel, Store, find_profile, get, receive, offer, reload, subscribe, receive_at, Step, reloading,
  subscribing, receiving, step, run,
}

-- The profiles of the last reload that succeeded, the independent description.
abbrev pub latest : List Profile → List Step → List Profile
latest ps [] = ps
latest ps (reloading (done qs) ∷ steps) = latest qs steps
latest ps (_ ∷ steps) = latest ps steps

abbrev pub IsUpToDate : List Profile → Channel → Type 0
IsUpToDate ps ch = (ch ≡ none) ⊎ (ch ≡ some ps)

-- Whatever waits in a channel is the store's current list.
abbrev pub AreUpToDate : Store → Type 0
AreUpToDate s = All (IsUpToDate s.profiles) s.subscribers

offer_sends : (ps : List Profile) (ch : Channel) → offer ps ch ≡ some ps
unfolding offer
offer_sends ps none = refl
offer_sends ps (some queued) = refl

offers_send : (ps : List Profile) (chs : List Channel) → All (IsUpToDate ps) (map (offer ps) chs)
offers_send ps [] = tt
offers_send ps (ch ∷ chs) = (inr (offer_sends ps ch), offers_send ps chs)

received : (ps : List Profile) (ch : Channel) → IsUpToDate ps (receive ch).1
unfolding receive
received ps none = inl refl
received ps (some queued) = inl refl

receive_at-IsUpToDate :
    (ps : List Profile) (k : ℕ) (chs : List Channel)
    → All (IsUpToDate ps) chs
    → All (IsUpToDate ps) (receive_at k chs).1
unfolding receive_at
receive_at-IsUpToDate ps k [] h = tt
receive_at-IsUpToDate ps zero (ch ∷ chs) h = (received ps ch, h.1)
receive_at-IsUpToDate ps (suc k) (ch ∷ chs) h = (h.0, receive_at-IsUpToDate ps k chs h.1)

-- One step keeps every channel up to date, and its list is the one of the last reload.
step-AreUpToDate :
    (s : Store) (x : Step)
    → AreUpToDate s
    → AreUpToDate (step s x).0 × ((step s x).0.profiles ≡ latest s.profiles (x ∷ []))
unfolding step reload subscribe
step-AreUpToDate s (reloading (failed e)) h = (h, refl)
step-AreUpToDate s (reloading (done ps)) h = (offers_send ps s.subscribers, refl)
step-AreUpToDate s subscribing h =
    (All-append (IsUpToDate s.profiles) s.subscribers (none ∷ []) h (inl refl, tt), refl)
step-AreUpToDate s (receiving k) h = (receive_at-IsUpToDate s.profiles k s.subscribers h, refl)

latest-cons :
    (ps : List Profile) (x : Step) (xs : List Step)
    → latest ps (x ∷ xs) ≡ latest (latest ps (x ∷ [])) xs
latest-cons ps (reloading (failed e)) xs = refl
latest-cons ps (reloading (done qs)) xs = refl
latest-cons ps subscribing xs = refl
latest-cons ps (receiving k) xs = refl

-- Over every sequence of reloads, subscriptions and receives, the store holds the profiles of the
-- last reload that succeeded, or the initial ones, and no channel that was empty or up to date at
-- the start holds anything else.
pub run-AreUpToDate :
    (s : Store) (xs : List Step)
    → AreUpToDate s
    → ((run s xs).profiles ≡ latest s.profiles xs) × AreUpToDate (run s xs)
unfolding run
run-AreUpToDate s [] h = (refl, h)
run-AreUpToDate s (x ∷ xs) h =
    let (kept, now) = step-AreUpToDate s x h in
    let (held, up) = run-AreUpToDate (step s x).0 xs kept in
    (held ∙ ap (λ q. latest q xs) now ∙ sym (latest-cons s.profiles x xs), up)

find_fresh :
    (seen : List String) (ps : List Profile) (p : Profile)
    → FreshProfiles seen ps
    → In p ps
    → (contains seen p.name ≡ false) × (find_profile p.name ps ≡ some p)
unfolding find_profile
find_fresh seen [] p f m = absurd m
find_fresh seen (q ∷ ps) p f (inl e) =
    subst
      (λ (x : Profile). (contains seen x.name ≡ false) × (find_profile x.name (q ∷ ps) ≡ some x)) e
      (f.0, rw (eq_refl q.name) refl)
find_fresh seen (q ∷ ps) p f (inr m) =
    let (unseen, found) = find_fresh (q.name ∷ seen) ps p f.1 m in
    let other : (q.name == p.name) ≡ false = ground (arith) in (ground (arith), rw other found)

-- Where no name stands twice, Get finds every profile of the last reload under its own name.
pub get_after_reload :
    (s : Store) (ps : List Profile) (p : Profile)
    → FreshProfiles [] ps
    → In p ps
    → get (reload s (done ps)).0 p.name ≡ some p
unfolding get reload
get_after_reload s ps p f m = (find_fresh [] ps p f m).1
