-- ===== src/Igmp/Once.antt =====
-- igmp_query_injector.py: a query is injected once to each interface, when both its ends are connected.
use xen_api.Base.{◌≤◌, true, false, some, List, [], ◌∷◌, ◌≡◌, refl, Bool-cases, inl, inr}
use xen_api.Base.Dict.{has_key, text_eq_sound}
use xen_api.Base.Bytes.{codes, bytes_eq as text_eq}
use xen_api.Base.Utf8.{Text}
use xen_api.Base.Members.{Each, OneOf}
use xen_api.Base.Exec.{ok, err}
use xen_api.Igmp.Phases.{
  count_watches, count, Phase, connected, connected-Phase, end_connected-watches, Phase-Same,
  end_connected-once, end_connected-Same,
}
use xen_api.Igmp.Watches.{
  token_of, token_of-has_key, Distinct, IsPart, pop-Distinct, pop-IsPart, watch_all-Distinct,
}
use xen_api.Igmp.Injector.{
  Event, Injector, Outcome, key_error, and_then, is_member, unwatch, end_connected, handle,
  no_watches, check_and_inject, start, watch_all,
}

-- What is left of the watches of the start, with their tokens
Left : List (Text × Text) → Injector → Type 0
Left ws s = Distinct s.watches × IsPart s.watches ws

-- Every interface that started with two watches is in one of its three states.
AllPhases : List (Text × Text) → Injector → Type 0
AllPhases ws s = (v : Text) → count_watches v ws ≡ 2 → Phase v s

-- The loop dies at a connected event for a path that is watched no more: the other interfaces are in one
-- of their states, and none got a second query.
abbrev pub Dies : List (Text × Text) → Event → Injector → Type 0
Dies ws e s =
    (e.state ≡ codes "4")
    × (has_key e.path s.watches ≡ false)
    × ((v : Text) → count_watches v ws ≡ 2 → text_eq v e.token ≡ false → Phase v s)
    × ((v : Text) → count_watches v ws ≡ 2 → count v s.injected ≤ 1)

-- How the loop ends: with each interface in one of its states, or at one of the events.
abbrev pub Ends : List (Text × Text) → List Event → Outcome → Type 0
Ends ws es (ok _, s) = (v : Text) → count_watches v ws ≡ 2 → Phase v s
Ends ws es (err _, s) = (e : Event) × OneOf e es × Dies ws e s

module _ (ws : List (Text × Text)) (e : Event) (s : Injector) where
  -- What an event makes of a state of the loop
  Handled : Outcome → Type 0
  Handled (ok _, s') = Left ws s' × AllPhases ws s'
  Handled (err _, s') = Dies ws e s'

  watched-Handled :
      token_of e.path s.watches ≡ some e.token
      → Left ws s
      → AllPhases ws s
      → Handled (ok tt, connected e.path e.token s)
  unfolding Handled Left AllPhases connected
  watched-Handled t (distinct, part) phases = (
    (
      pop-Distinct e.path s.watches distinct,
      λ k v h. part k v (pop-IsPart e.path s.watches distinct k v h),
    ),
    λ v two. connected-Phase e.path e.token v s t (phases v two),
  )

  stale-Handled :
      e.state ≡ codes "4"
      → has_key e.path s.watches ≡ false
      → AllPhases ws s
      → Handled (err key_error, end_connected e.token s)
  unfolding Handled AllPhases
  stale-Handled four gone phases = (
    four,
    rw (end_connected-watches e.token s) gone,
    λ v two ne.
        Phase-Same v s (end_connected e.token s) (end_connected-Same e.token v s ne) (phases v two),
    λ v two. end_connected-once e.token v s (phases v two),
  )

  kept-Handled : Left ws s → AllPhases ws s → Handled (ok tt, s)
  unfolding Handled
  kept-Handled left phases = (left, phases)

  -- The token of a watched path is that of the start.
  watched_token :
      token_of e.path ws ≡ some e.token
      → Left ws s
      → has_key e.path s.watches ≡ true
      → token_of e.path s.watches ≡ some e.token
  unfolding Left
  watched_token t (distinct, part) there =
      let (v, tv) = token_of-has_key e.path s.watches there in let at_start = part e.path v tv in cc

  handle-Handled :
      token_of e.path ws ≡ some e.token → Left ws s → AllPhases ws s → Handled (handle e s)
  unfolding handle unwatch connected end_connected
  handle-Handled t left phases = elim (Bool-cases (text_eq e.state (codes "4"))) [
    | inr other ↦ rw other (kept-Handled left phases)
    | inl four ↦ rw four (elim (Bool-cases (has_key e.path s.watches)) [
      | inl there ↦
          rw (end_connected-watches e.token s, there)
            (watched-Handled (watched_token t left there) left phases)
      | inr gone ↦
          rw (end_connected-watches e.token s, gone)
            (stale-Handled (text_eq_sound e.state (codes "4") four) gone phases)
    ])
  ]

Ends-later :
    (ws : List (Text × Text)) (e : Event) (es : List Event) (r : Outcome)
    → Ends ws es r
    → Ends ws (e ∷ es) r
Ends-later ws e es (ok _, s) h = h
Ends-later ws e es (err _, s) (e', m, dies) = (e', inr m, dies)

module _ (ws : List (Text × Text)) where
  go_on :
      (e : Event) (es : List Event) (s : Injector) (r : Outcome)
      → Handled ws e s r
      → ((s' : Injector) → Left ws s' → AllPhases ws s' → Ends ws es (check_and_inject es s'))
      → Ends ws (e ∷ es) (and_then r (check_and_inject es))
  unfolding Handled
  go_on e es s (ok _, s') (left, phases) ih =
      Ends-later ws e es (check_and_inject es s') (ih s' left phases)
  go_on e es s (err _, s') dies ih = (e, inl refl, dies)

  loop-Ends :
      (es : List Event) (s : Injector)
      → Each (λ (e : Event). token_of e.path ws ≡ some e.token) es
      → Left ws s
      → AllPhases ws s
      → Ends ws es (check_and_inject es s)
  unfolding check_and_inject AllPhases
  loop-Ends [] s h left phases = phases
  loop-Ends (e ∷ es) s h left phases = elim (Bool-cases (no_watches s.watches)) [
    | inl done ↦ rw done phases
    | inr waiting ↦ rw waiting (
        go_on e es s (handle e s) (handle-Handled ws e s h.0 left phases) λ s'. loop-Ends es s' h.1)
  ]

start-Phase :
    (paths : Text → Text × Text) (vifs : List Text)
    → AllPhases (watch_all paths vifs []) (start paths vifs)
unfolding start is_member AllPhases
start-Phase paths vifs v two = inl (two, refl, refl)

start-Left :
    (paths : Text → Text × Text) (vifs : List Text)
    → Left (watch_all paths vifs []) (start paths vifs)
unfolding start Left
start-Left paths vifs = (watch_all-Distinct paths vifs [] tt, λ k v e. e)

-- After any events, each of which has the token that its path was watched with, however late the event
-- comes: if the loop did not fail, every interface that started with two watches is in one of three
-- states: both ends are still watched, and no query was injected; one end is, the interface is kept in
-- mind, and no query was injected; or none is, and one query was injected. If it failed, it was at one of
-- the events, for a connected end whose path was watched no more; of the same interfaces all
-- but the one of that event are in one of the three states, and none got a second query.
pub check_and_inject-Phase :
    (paths : Text → Text × Text) (vifs : List Text) (es : List Event)
    → Each (λ (e : Event). token_of e.path (watch_all paths vifs []) ≡ some e.token) es
    → Ends (watch_all paths vifs []) es (check_and_inject es (start paths vifs))
check_and_inject-Phase paths vifs es h =
    loop-Ends (watch_all paths vifs []) es (start paths vifs) h (start-Left paths vifs)
      (start-Phase paths vifs)
