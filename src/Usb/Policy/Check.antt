-- ===== src/Usb/Policy/Check.antt =====
-- `Policy.check` of usb_scan.py against a description of it: the first rule that matches an interface
-- decides on it, and a device is allowed where every interface is.
use xen_api.Base.{◌≡◌, ◌↔◌, ◌⊎◌, inl, inr, refl, ap, Bool, true, false, List, [], ◌∷◌, ◌++◌, arith}
use xen_api.Base.Exec.{Result, ok, err}
use xen_api.Usb.Types.{Failure, Device, Interface}
use xen_api.Usb.Policy.{Rule, match_device_interface, check_interface, check_interfaces, check}

outcomes :
    (m : Result Failure Bool) → (m ≡ ok true) ⊎ ((m ≡ ok false) ⊎ ((f : Failure) × (m ≡ err f)))
outcomes (ok true) = inl refl
outcomes (ok false) = inr (inl refl)
outcomes (err f) = inr (inr (f, refl))

module _ (d : Device) (i : Interface) where
  abbrev pub NoneMatches : List Rule → Type 0
  NoneMatches [] = Unit
  NoneMatches (r ∷ rs) = (match_device_interface r d i ≡ ok false) × NoneMatches rs

  -- Some rule allows, and no rule before it matches.
  abbrev pub FirstAllows : List Rule → Type 0
  FirstAllows rules =
      (before : List Rule) × (r : Rule) × (after : List Rule) × (rules ≡ before ++ r ∷ after)
      × NoneMatches before
      × (match_device_interface r d i ≡ ok true)
      × (r.allow ≡ true)

  allows_first : (rules : List Rule) → check_interface rules d i ≡ ok true → FirstAllows rules
  unfolding check_interface
  allows_first [] h = absurd (ground arith)
  allows_first (r ∷ rs) h = elim (outcomes (match_device_interface r d i)) [
    | inl e ↦ ([], r, rs, refl, tt, e, ground (arith, e))
    | inr (inl e) ↦
        (let (b, x, a, p, q, m, y) = allows_first rs (ground (arith, e)) in
          (r ∷ b, x, a, ap (λ t. r ∷ t) p, (e, q), m, y))
    | inr (inr (f, e)) ↦ absurd (ground (arith, e))
  ]

  first_allows :
      (before after : List Rule) (r : Rule)
      → NoneMatches before
      → match_device_interface r d i ≡ ok true
      → r.allow ≡ true
      → check_interface (before ++ r ∷ after) d i ≡ ok true
  unfolding check_interface
  first_allows [] after r n m a = ground (arith, m)
  first_allows (x ∷ before) after r n m a = ground (arith, n.0, first_allows before after r n.1 m a)

-- Every interface has a first matching rule, and that rule allows.
abbrev pub EachAllowed : List Rule → Device → List Interface → Type 0
EachAllowed rules d [] = Unit
EachAllowed rules d (i ∷ is) = FirstAllows d i rules × EachAllowed rules d is

module _ (rules : List Rule) (d : Device) where
  each_allowed :
      (is : List Interface) → check_interfaces rules d is ≡ ok true → EachAllowed rules d is
  unfolding check_interfaces
  each_allowed [] h = tt
  each_allowed (i ∷ is) h = elim (outcomes (check_interface rules d i)) [
    | inl e ↦ (allows_first d i rules e, each_allowed is (ground (arith, e)))
    | inr (inl e) ↦ absurd (ground (arith, e))
    | inr (inr (f, e)) ↦ absurd (ground (arith, e))
  ]

  allowed_each :
      (is : List Interface) → EachAllowed rules d is → check_interfaces rules d is ≡ ok true
  unfolding check_interfaces
  allowed_each [] h = refl
  allowed_each (i ∷ is) ((before, r, after, p, n, m, a), h) =
      let here : check_interface rules d i ≡ ok true =
        rw p (first_allows d i before after r n m a) in
      ground (arith, here, allowed_each is h)

  -- A device may be passed through exactly when each of its interfaces has a matching rule and the first
  -- one that matches allows it.
  pub check-EachAllowed : (check rules d ≡ ok true) ↔ EachAllowed rules d d.interfaces
  unfolding check
  check-EachAllowed = (each_allowed d.interfaces, allowed_each d.interfaces)
