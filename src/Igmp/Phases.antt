-- ===== src/Igmp/Phases.antt =====
-- igmp_query_injector.py: the three states of an interface, and what an event makes of them.
use xen_api.Base.{
  ℕ, suc, ◌≤◌, true, false, some, List, [], ◌∷◌, ◌≡◌, refl, sym, ap, ◌∙◌, if◌then◌else◌, Bool-cases,
  inl, inr, ◌⊎◌, arith,
}
use mathlib.Core.Path.{subst}
use xen_api.Base.Dict.{text_eq_sound}
use xen_api.Base.Bytes.{bytes_eq as text_eq, bytes_eq_self}
use xen_api.Base.Utf8.{Text}
use xen_api.Igmp.Watches.{token_of}
use xen_api.Igmp.Injector.{Injector, is_member, discard, pop, end_connected}

-- How many watches an interface has, and how many queries it got
abbrev pub count_watches : Text → List (Text × Text) → ℕ
count_watches v [] = 0
count_watches v ((k, w) ∷ ws) =
    let rest = count_watches v ws in if text_eq v w then suc rest else rest

abbrev pub count : Text → List Text → ℕ
count v [] = 0
count v (w ∷ ws) = let rest = count v ws in if text_eq v w then suc rest else rest

-- The three states of an interface: no end, one end or both ends are connected.
abbrev pub Phase : Text → Injector → Type 0
Phase v s =
    ((count_watches v s.watches ≡ 2)
      × (is_member v s.vif_connected_set ≡ false)
      × (count v s.injected ≡ 0))
    ⊎ (((count_watches v s.watches ≡ 1)
          × (is_member v s.vif_connected_set ≡ true)
          × (count v s.injected ≡ 0))
        ⊎ ((count_watches v s.watches ≡ 0)
            × (is_member v s.vif_connected_set ≡ false)
            × (count v s.injected ≡ 1)))

count-pop :
    (k v : Text) (ws : List (Text × Text))
    → token_of k ws ≡ some v
    → suc (count_watches v (pop k ws)) ≡ count_watches v ws
unfolding pop
count-pop k v [] e = absurd (cc e)
count-pop k v ((k', w) ∷ ws) e = elim (Bool-cases (text_eq k k')) [
  | inl same ↦
      (let same_vif : w ≡ v = cc (rw same at e) in
        let t : text_eq v w ≡ true = rw same_vif (bytes_eq_self v) in rw (same, t) refl)
  | inr other ↦ (let rest = count-pop k v ws (rw other at e) in rw other (ground (arith, rest)))
]

count-pop_ne :
    (k v u : Text) (ws : List (Text × Text))
    → token_of k ws ≡ some v
    → text_eq u v ≡ false
    → count_watches u (pop k ws) ≡ count_watches u ws
unfolding pop
count-pop_ne k v u [] e ne = refl
count-pop_ne k v u ((k', w) ∷ ws) e ne = elim (Bool-cases (text_eq k k')) [
  | inl same ↦
      (let same_vif : w ≡ v = cc (rw same at e) in
        let t : text_eq u w ≡ false = rw same_vif ne in rw (same, t) refl)
  | inr other ↦
      (let rest = count-pop_ne k v u ws (rw other at e) ne in rw other (ground (arith, rest)))
]

is_member-discard : (v : Text) (ws : List Text) → is_member v (discard v ws) ≡ false
unfolding is_member discard
is_member-discard v [] = refl
is_member-discard v (w ∷ ws) = let rest = is_member-discard v ws in ground (arith, rest)

is_member-discard_ne :
    (u v : Text) (ws : List Text)
    → text_eq u v ≡ false
    → is_member u (discard v ws) ≡ is_member u ws
unfolding is_member discard
is_member-discard_ne u v [] ne = refl
is_member-discard_ne u v (w ∷ ws) ne = elim (Bool-cases (text_eq v w)) [
  | inl same ↦
      (let rest = is_member-discard_ne u v ws ne in
        let e : text_eq u w ≡ false = rw (← text_eq_sound v w same) ne in rw (same, e) rest)
  | inr other ↦ (let rest = is_member-discard_ne u v ws ne in rw (other, rest) refl)
]

-- The state after a connected end
unfoldable pub connected : Text → Text → Injector → Injector
connected path v s = record (end_connected v s) { watches = pop path s.watches }

own-Phase :
    (path v : Text) (s : Injector)
    → token_of path s.watches ≡ some v
    → Phase v s
    → Phase v (connected path v s)
unfolding connected end_connected is_member
own-Phase path v s e (inl (two, out, never)) =
    let less = count-pop path v s.watches e in
    rw out (inr (inl (omega (arith, less, two), rw (bytes_eq_self v) refl, never)))
own-Phase path v s e (inr (inl (one, there, never))) =
    let less = count-pop path v s.watches e in
    rw there (
      inr (
        inr (
          omega (arith, less, one),
          is_member-discard v s.vif_connected_set,
          rw (bytes_eq_self v) (ap suc never),
        )))
own-Phase path v s e (inr (inr (none_left, out, once))) =
    let less = count-pop path v s.watches e in absurd (omega (arith, less, none_left))

abbrev pub Same : Text → Injector → Injector → Type 0
Same u s s' =
    (count_watches u s'.watches ≡ count_watches u s.watches)
    × (is_member u s'.vif_connected_set ≡ is_member u s.vif_connected_set)
    × (count u s'.injected ≡ count u s.injected)

connected-Same :
    (path v u : Text) (s : Injector)
    → token_of path s.watches ≡ some v
    → text_eq u v ≡ false
    → Same u s (connected path v s)
unfolding connected end_connected is_member
connected-Same path v u s e ne = elim (Bool-cases (is_member v s.vif_connected_set)) [
  | inl there ↦
      rw (there, ne)
        (
          count-pop_ne path v u s.watches e ne,
          is_member-discard_ne u v s.vif_connected_set ne,
          refl,
        )
  | inr out ↦ rw (out, ne) (count-pop_ne path v u s.watches e ne, refl, refl)
]

pub Phase-Same : (u : Text) (s s' : Injector) → Same u s s' → Phase u s → Phase u s'
Phase-Same u s s' (a, b, c) (inl (x, y, z)) = inl (a ∙ x, b ∙ y, c ∙ z)
Phase-Same u s s' (a, b, c) (inr (inl (x, y, z))) = inr (inl (a ∙ x, b ∙ y, c ∙ z))
Phase-Same u s s' (a, b, c) (inr (inr (x, y, z))) = inr (inr (a ∙ x, b ∙ y, c ∙ z))

pub connected-Phase :
    (path v u : Text) (s : Injector)
    → token_of path s.watches ≡ some v
    → Phase u s
    → Phase u (connected path v s)
connected-Phase path v u s e phase = elim (Bool-cases (text_eq u v)) [
  | inl same ↦
      (let u≡v = text_eq_sound u v same in
        subst (λ x. Phase x (connected path v s)) (sym u≡v)
          (own-Phase path v s e (subst (λ x. Phase x s) u≡v phase)))
  | inr other ↦ Phase-Same u s (connected path v s) (connected-Same path v u s e other) phase
]

pub end_connected-watches : (v : Text) (s : Injector) → (end_connected v s).watches ≡ s.watches
unfolding end_connected
end_connected-watches v s = elim (Bool-cases (is_member v s.vif_connected_set)) [
  | inl there ↦ rw there refl
  | inr out ↦ rw out refl
]

pub at_most_once : (v : Text) (s : Injector) → Phase v s → count v s.injected ≤ 1
at_most_once v s (inl (a, b, never)) = omega (arith, never)
at_most_once v s (inr (inl (a, b, never))) = omega (arith, never)
at_most_once v s (inr (inr (a, b, once))) = omega (arith, once)

-- An interface that is kept in mind got no query yet.
in_mind-count :
    (u : Text) (s : Injector)
    → Phase u s
    → is_member u s.vif_connected_set ≡ true
    → count u s.injected ≡ 0
in_mind-count u s (inl (a, out, b)) there = absurd (cc (there, out))
in_mind-count u s (inr (inl (a, b, never))) there = never
in_mind-count u s (inr (inr (a, out, b))) there = absurd (cc (there, out))

pub end_connected-once :
    (v u : Text) (s : Injector) → Phase u s → count u (end_connected v s).injected ≤ 1
unfolding end_connected
end_connected-once v u s phase = elim (Bool-cases (is_member v s.vif_connected_set)) [
  | inr out ↦ rw out (at_most_once u s phase)
  | inl there ↦ rw there (elim (Bool-cases (text_eq u v)) [
    | inr other ↦ rw other (at_most_once u s phase)
    | inl same ↦ rw same (
        let none_yet = in_mind-count u s phase (rw (text_eq_sound u v same) there) in
        omega (arith, none_yet))
  ])
]

pub end_connected-Same :
    (v u : Text) (s : Injector) → text_eq u v ≡ false → Same u s (end_connected v s)
unfolding end_connected is_member
end_connected-Same v u s ne = elim (Bool-cases (is_member v s.vif_connected_set)) [
  | inl there ↦ rw (there, ne) (refl, is_member-discard_ne u v s.vif_connected_set ne, refl)
  | inr out ↦ rw (out, ne) (refl, refl, refl)
]
