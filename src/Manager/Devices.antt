-- ===== src/Manager/Devices.antt =====
-- `_find_unused_nbd_device` of nbd_client_manager.py: which device it finds.
use xen_api.Base.{
  ℕ, zero, suc, ◌+◌, ◌≤◌, ◌<◌, ◌≡◌, ◌⊎◌, inl, inr, refl, Bool, true, false, [], arith, ◌==◌,
  Bool-cases,
}
use xen_api.Base.Utf8.{Text}
use xen_api.Base.Exec.{Result, ok, err}
use xen_api.Manager.System.{Failure, nbd_check, nbd_path, System}
use xen_api.Manager.Client.{call, is_nbd_device_connected, find_from, find_unused_nbd_device}

outcomes :
    (r : Result Failure Bool) → (r ≡ ok true) ⊎ ((r ≡ ok false) ⊎ ((f : Failure) × (r ≡ err f)))
outcomes (ok true) = inl refl
outcomes (ok false) = inr (inl refl)
outcomes (err f) = inr (inr (f, refl))

module _ {W : Type 0} (sys : System W)
    (only_reads : (d : Text) (w : W) → (sys.run (nbd_check d) w).1 ≡ w) (w : W) where
  pub state_stays : (d : Text) → (is_nbd_device_connected sys d w).1 ≡ w
  unfolding is_nbd_device_connected call
  state_stays d = ground (arith, only_reads d w)

  -- The device of the least number from `number` on, below `bound`, that is not connected.
  pub record IsFirstFree (number bound : ℕ) (device : Text) : Type 0 where
    pub at : ℕ
    pub named : device ≡ nbd_path at
    pub from : number ≤ at
    pub below : at < bound
    pub free : (is_nbd_device_connected sys device w).0 ≡ ok false
    pub others :
        (k : ℕ) → number ≤ k → k < at → (is_nbd_device_connected sys (nbd_path k) w).0 ≡ ok true

  step_back :
      (number bound : ℕ) (device : Text)
      → (is_nbd_device_connected sys (nbd_path number) w).0 ≡ ok true
      → IsFirstFree (number + 1) bound device
      → IsFirstFree number bound device
  step_back number bound device taken f = record {
    at = f.at;
    named = f.named;
    from = omega (arith, f.from);
    below = f.below;
    free = f.free;
    others = λ k l u. elim (Bool-cases (number == k)) [
      | inl same ↦ (let e : number ≡ k = ground arith in rw (← e) taken)
      | inr apart ↦ f.others k (ground arith) u
    ];
  }

  find_from-IsFirstFree :
      (n number bound : ℕ) (last device : Text)
      → number + n ≡ bound
      → (find_from sys number n last w).0 ≡ ok device
      → IsFirstFree number bound device
  unfolding find_from
  find_from-IsFirstFree zero number bound last device p h = absurd (ground arith)
  find_from-IsFirstFree (suc n) number bound last device p h =
      elim (outcomes (is_nbd_device_connected sys (nbd_path number) w).0) [
        | inl taken ↦ step_back number bound device taken (
            find_from-IsFirstFree n (number + 1) bound (nbd_path number) device (omega arith)
              (ground (arith, taken, state_stays (nbd_path number))))
        | inr (inl free) ↦
            (let e : device ≡ nbd_path number = ground (arith, free) in
              record {
                at = number;
                named = e;
                from = omega arith;
                below = omega arith;
                free = rw e free;
                others = λ k l u. absurd (omega arith);
              })
        | inr (inr (f, failed)) ↦ absurd (ground (arith, failed))
      ]

  -- If asking for the state of a device changes nothing, the device that is found is the first of
  -- /dev/nbd0 to /dev/nbd999 that is not connected: all before it are.
  pub find_unused-IsFirstFree :
      (device : Text) → (find_unused_nbd_device sys w).0 ≡ ok device → IsFirstFree 0 1000 device
  unfolding find_unused_nbd_device
  find_unused-IsFirstFree device h = find_from-IsFirstFree 1000 0 1000 [] device refl h
