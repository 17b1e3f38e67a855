-- ===== src/Nbd/Results.antt =====
-- What every success of an action of python_nbd_client.py returns.
use xen_api.Base.{Bool, true, false, ◌≡◌, refl, if◌then◌else◌}
use xen_api.Base.Exec.{Result, ok, err, pure, raise, continue, ◌>>=◌}
use xen_api.Nbd.Types.{Client, Nbd, Error}

abbrev pub Ensures : {A : Type 0} → (A → Type 0) → Result Error A × Client → Type 0
Ensures P (ok a, _) = P a
Ensures P (err _, _) = Unit

pub record Gives {A : Type 0} (P : A → Type 0) (m : Nbd A) : Type 0 where
  pub at : (c : Client) → Ensures P (m c)

module _ {A : Type 0} (P : A → Type 0) where
  pub pure-Gives : (a : A) → P a → Gives P (pure a)
  pure-Gives a h = record { at = λ c. h }

  pub raise-Gives : (e : Error) → Gives P (raise e)
  raise-Gives e = record { at = λ c. tt }

  pub if-Gives :
      (b : Bool) (m k : Nbd A)
      → (b ≡ true → Gives P m)
      → (b ≡ false → Gives P k)
      → Gives P (if b then m else k)
  if-Gives true m k p q = p refl
  if-Gives false m k p q = q refl

module _ {A B : Type 0} (Q : A → Type 0) (P : B → Type 0) where
  hand_on :
      (f : A → Nbd B) (r : Result Error A × Client)
      → Ensures Q r
      → ((a : A) → Q a → Gives P (f a))
      → Ensures P (continue f r.0 r.1)
  hand_on f (ok a, c) q p = (p a q).at c
  hand_on f (err e, c) q p = tt

  pub bind-Gives :
      (m : Nbd A) (f : A → Nbd B) → Gives Q m → ((a : A) → Q a → Gives P (f a)) → Gives P (m >>= f)
  bind-Gives m f q p = record { at = λ c. hand_on f (m c) (q.at c) p }

module _ {A B : Type 0} (P : B → Type 0) where
  nothing : (m : Nbd A) → Gives (λ _. Unit {0}) m
  nothing m = record { at = λ c. no_claim (m c) }
    where
      no_claim : (r : Result Error A × Client) → Ensures (λ _. Unit {0}) r
      no_claim (ok a, c) = tt
      no_claim (err e, c) = tt

  -- The rest decides.
  pub then-Gives : (m : Nbd A) (f : A → Nbd B) → ((a : A) → Gives P (f a)) → Gives P (m >>= f)
  then-Gives m f p = bind-Gives (λ _. Unit {0}) P m f (nothing m) (λ a _. p a)
