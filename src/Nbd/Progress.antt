-- ===== src/Nbd/Progress.antt =====
-- Progress of the client of python_nbd_client.py through its stream: rules for how many bytes an
-- action takes at the least, and for loops whose rounds each take some.
pub mod Replies
pub mod Loops
pub mod Unfinished
use xen_api.Base.{
  ℕ, zero, suc, ◌+◌, ◌≤◌, ◌<◌, ◌≡◌, ◌≢◌, refl, Bool, true, false, Option, none, some, List, [], ◌∷◌,
  ◌++◌, arith, length, leb, if◌then◌else◌, le→leb, leb→le, Bool-cases, inl, inr, length-drop, ap,
}
use xen_api.Base.Bytes.{Bytes}
use xen_api.Base.Exec.{Result, ok, err, pure, raise, gets, or_raise, modify, guard, ◌>>=◌, continue}
use xen_api.Nbd.Types.{Client, Error, Client, Nbd, diverged}
use xen_api.Nbd.Socket.{flat, recvall}
use xen_api.Nbd.Socket.Laws.{NoEmpty, skip, recvall_lem, flat-skip, skip-NoEmpty}
use xen_api.Nbd.Handshake.{rounds}

abbrev pub available : Client → ℕ
available c = length (flat c.incoming)

-- From `c`, the outcome is no divergence and leaves no empty segment, and a success has taken `n` bytes
-- at the least.
abbrev pub Takes : {A : Type 0} → ℕ → Client → Result Error A × Client → Type 0
Takes n c (ok a, c') = NoEmpty c'.incoming × (available c' + n ≤ available c)
Takes n c (err e, c') = (e ≢ diverged) × NoEmpty c'.incoming

pub record Progress {A : Type 0} (n : ℕ) (m : Nbd A) : Type 0 where
  pub from : (c : Client) → NoEmpty c.incoming → Takes n c (m c)

-- The same for a start with fewer bytes than `fuel`.
pub record Ends {A : Type 0} (fuel : ℕ) (m : Nbd A) : Type 0 where
  pub from : (c : Client) → NoEmpty c.incoming → available c < fuel → Takes 0 c (m c)

module _ {A : Type 0} where
  pub pure-Progress : (a : A) → Progress 0 (pure a)
  pure-Progress a = record { from = λ c h. (h, omega arith) }

  pub raise-Progress : (e : Error) → e ≢ diverged → Progress 0 (raise {A = A} e)
  raise-Progress e h = record { from = λ c p. (h, p) }

  pub gets-Progress : (f : Client → A) → Progress 0 (gets f)
  gets-Progress f = record { from = λ c h. (h, omega arith) }

  pub or_raise-Progress : (o : Option A) (e : Error) → e ≢ diverged → Progress 0 (or_raise o e)
  or_raise-Progress none e h = record { from = λ c p. (h, p) }
  or_raise-Progress (some a) e h = record { from = λ c p. (p, omega arith) }

  pub if-Progress :
      (n : ℕ) (b : Bool) (m k : Nbd A)
      → Progress n m
      → Progress n k
      → Progress n (if b then m else k)
  if-Progress n true m k p q = p
  if-Progress n false m k p q = q

pub guard-Progress : (b : Bool) (e : Error) → e ≢ diverged → Progress 0 (guard b e)
guard-Progress true e h = record { from = λ c p. (p, omega arith) }
guard-Progress false e h = record { from = λ c p. (h, p) }

-- Writes to the other fields take nothing from the stream.
pub modify-Progress :
    (f : Client → Client) → ((c : Client) → (f c).incoming ≡ c.incoming) → Progress 0 (modify f)
modify-Progress f h = record { from = λ c p. (rw (h c) p, rw (h c) (omega arith)) }

pub recvall-Progress : (n : ℕ) → Progress n (recvall n)
recvall-Progress n = record {
  from = λ c h. rw (recvall_lem n c h) (elim (Bool-cases (leb n (available c))) [
    | inl enough ↦ rw enough (
      skip-NoEmpty n c h,
      omega (
        arith,
        leb→le n (available c) enough,
        ap length (flat-skip n c h (leb→le n (available c) enough)),
        length-drop n (flat c.incoming),
      ),
    )
    | inr short ↦ rw short ((λ e. cc), skip-NoEmpty n c h)
  ]);
}

module _ {A : Type 0} where
  later :
      (n : ℕ) (c c' : Client) (r : Result Error A × Client)
      → available c' + n ≤ available c
      → Takes 0 c' r
      → Takes n c r
  later n c c' (ok a, d) h t = (t.0, omega arith)
  later n c c' (err e, d) h t = t

  pub Progress-weaken : (n : ℕ) (m : Nbd A) → Progress n m → Progress 0 m
  Progress-weaken n m p = record { from = λ c h. weaker n c (m c) (p.from c h) }
    where
      weaker : (n : ℕ) (c : Client) (r : Result Error A × Client) → Takes n c r → Takes 0 c r
      weaker n c (ok a, d) t = (t.0, omega arith)
      weaker n c (err e, d) t = t

  pub Progress-Ends : (fuel : ℕ) (m : Nbd A) → Progress 0 m → Ends fuel m
  Progress-Ends fuel m p = record { from = λ c h _. p.from c h }

  pub if-Ends :
      (fuel : ℕ) (b : Bool) (m k : Nbd A)
      → Ends fuel m
      → Ends fuel k
      → Ends fuel (if b then m else k)
  if-Ends fuel true m k p q = p
  if-Ends fuel false m k p q = q

  -- No start has fewer than no bytes.
  pub zero-Ends : (m : Nbd A) → Ends 0 m
  zero-Ends m = record { from = λ c h l. absurd (omega arith) }

module _ {A B : Type 0} where
  after :
      (n : ℕ) (c : Client) (f : A → Nbd B) (r : Result Error A × Client)
      → ((a : A) → Progress 0 (f a))
      → Takes n c r
      → Takes n c (continue f r.0 r.1)
  after n c f (ok a, d) p t = later n c d (f a d) t.1 ((p a).from d t.0)
  after n c f (err e, d) p t = t

  pub bind-Progress :
      (n : ℕ) (m : Nbd A) (f : A → Nbd B)
      → Progress n m
      → ((a : A) → Progress 0 (f a))
      → Progress n (m >>= f)
  bind-Progress n m f p q = record { from = λ c h. after n c f (m c) q (p.from c h) }

  after_round :
      (n fuel : ℕ) (c : Client) (f : A → Nbd B) (r : Result Error A × Client)
      → available c < n + fuel
      → ((a : A) → Ends fuel (f a))
      → Takes n c r
      → Takes 0 c (continue f r.0 r.1)
  after_round n fuel c f (ok a, d) l p t =
      later 0 c d (f a d) (omega (arith, t.1)) ((p a).from d t.0 (omega (arith, t.1)))
  after_round n fuel c f (err e, d) l p t = t

  -- A round that takes a byte leaves the rest of the loop one round less.
  pub round-Ends :
      (n fuel : ℕ) (m : Nbd A) (f : A → Nbd B)
      → Progress (suc n) m
      → ((a : A) → Ends fuel (f a))
      → Ends (suc fuel) (m >>= f)
  round-Ends n fuel m f p q = record {
    from = λ c h l. after_round (suc n) fuel c f (m c) (omega arith) q (p.from c h);
  }

  -- Such a round and the rest of the loop take what the round takes.
  pub round-Takes :
      (n fuel : ℕ) (m : Nbd A) (f : A → Nbd B)
      → Progress n m
      → ((a : A) → Ends fuel (f a))
      → (c : Client) → NoEmpty c.incoming
      → available c < n + fuel
      → Takes n c ((m >>= f) c)
  round-Takes n fuel m f p q c h l = round (m c) (p.from c h)
    where
      round : (r : Result Error A × Client) → Takes n c r → Takes n c (continue f r.0 r.1)
      round (ok a, d) t = later n c d (f a d) t.1 ((q a).from d t.0 (omega (arith, t.1)))
      round (err e, d) t = t

  pub bind-Ends :
      (fuel : ℕ) (m : Nbd A) (f : A → Nbd B)
      → Progress 0 m
      → ((a : A) → Ends fuel (f a))
      → Ends fuel (m >>= f)
  bind-Ends fuel m f p q = record {
    from = λ c h l. after_round 0 fuel c f (m c) (omega arith) q (p.from c h);
  }

module _ {A B : Type 0} where
  -- The second action may be the one that takes.
  pub bind-Progress_last :
      (n : ℕ) (m : Nbd A) (f : A → Nbd B)
      → Progress 0 m
      → ((a : A) → Progress n (f a))
      → Progress n (m >>= f)
  bind-Progress_last n m f p q = record { from = λ c h. second c (m c) (p.from c h) }
    where
      nearer :
          (c d : Client) (r : Result Error B × Client)
          → available d ≤ available c
          → Takes n d r
          → Takes n c r
      nearer c d (ok b, e) l t = (t.0, omega arith)
      nearer c d (err e, c') l t = t

      second :
          (c : Client) (r : Result Error A × Client) → Takes 0 c r → Takes n c (continue f r.0 r.1)
      second c (ok a, d) t = nearer c d (f a d) (omega (arith, t.1)) ((q a).from d t.0)
      second c (err e, d) t = t

  behind :
      (c : Client) (f : A → Nbd B) (r : Result Error A × Client)
      → ((a : A) → Progress 0 (f a))
      → Takes 0 c r
      → Takes 0 c (continue f r.0 r.1)
  behind c f (ok a, d) p t = later 0 c d (f a d) t.1 ((p a).from d t.0)
  behind c f (err e, d) p t = t

  -- The loop first, and then what takes nothing more.
  pub bind-Ends_last :
      (fuel : ℕ) (m : Nbd A) (f : A → Nbd B)
      → Ends fuel m
      → ((a : A) → Progress 0 (f a))
      → Ends fuel (m >>= f)
  bind-Ends_last fuel m f p q = record { from = λ c h l. behind c f (m c) q (p.from c h l) }

pub rounds-Progress :
    {A : Type 0} (f : ℕ → Nbd A)
    → ((fuel : ℕ) → Ends fuel (f fuel))
    → Progress 0 (gets rounds >>= f)
rounds-Progress f p = record { from = λ c h. (p (suc (available c))).from c h (omega arith) }

pub ruleset progress_rules = (
  pure-Progress, raise-Progress, gets-Progress, or_raise-Progress, guard-Progress, modify-Progress,
  recvall-Progress, bind-Progress, if-Progress,
)
