-- ===== src/Manager/Disconnect.antt =====
-- `disconnect_nbd_device` of nbd_client_manager.py leaves a device that is not connected, and does nothing
-- with such a device.
use xen_api.Base.{
  ◌≡◌, refl, ap, Bool, true, false, Option, none, some, ℕ, zero, suc, arith, ltb, Bool-cases, ◌++◌,
  ◌==◌, inl, inr, ◌⊎◌,
}
use xen_api.Base.Bytes.{codes}
use xen_api.Base.Utf8.{Text}
use xen_api.Base.Exec.{Result, ok, err, modify, when, continue, ◌>>=◌, ◌>>◌}
use xen_api.Manager.System.{
  Failure, device_not_found, conn_state_timeout, diverged, invalid_nbd_dev_name, called_process,
  nbd_check, nbd_disconnect, remove_info, Command, search_number, System,
  persistent_connect_info_filename,
}
use xen_api.Manager.Client.{
  lift, call, is_nbd_device_connected, wait_loop, wait_for_nbd_device,
  remove_persistent_connect_info, ignore_missing, forgive, disconnect_nbd_device,
}
use xen_api.Manager.Devices.{state_stays}

module _ {W : Type 0} (sys : System W)
    (only_reads : (d : Text) (w : W) → (sys.run (nbd_check d) w).1 ≡ w) (device : Text) where
  -- The device is not connected, or not there.
  abbrev pub IsGone : W → Type 0
  IsGone w =
      ((is_nbd_device_connected sys device w).0 ≡ ok false)
      ⊎ ((d : Text) × ((is_nbd_device_connected sys device w).0 ≡ err (device_not_found d)))

  left_alone : (w : W) → IsGone w → disconnect_nbd_device sys device w ≡ (ok tt, w)
  unfolding disconnect_nbd_device ignore_missing
  left_alone w (inl e) = ground (arith, e, state_stays sys only_reads w device)
  left_alone w (inr (d, e)) = ground (arith, e, state_stays sys only_reads w device)

  -- A step ends with the device gone, or with an error that is not caught.
  abbrev Ended : Result Failure (Unit {0}) × W → Type 0
  Ended (ok tt, w) = IsGone w
  Ended (err (device_not_found d), w) = IsGone w
  Ended (err _, w) = Unit

  -- An error that is caught comes only from asking for the state of the device.
  abbrev Plain : {A : Type 0} → Result Failure A → Type 0
  Plain (err (device_not_found d)) = ⊥
  Plain _ = Unit

  module _ {A : Type 0} where
    go_on :
        (f : A → W → Result Failure (Unit {0}) × W) (r : Result Failure A × W)
        → Plain r.0
        → ((a : A) (v : W) → Ended (f a v))
        → Ended (continue f r.0 r.1)
    go_on f (ok a, v) h p = p a v
    go_on f (err (device_not_found d), v) h p = absurd h
    go_on f (err invalid_nbd_dev_name, v) h p = tt
    go_on f (err conn_state_timeout, v) h p = tt
    go_on f (err diverged, v) h p = tt
    go_on f (err (called_process n), v) h p = tt

  module _ (w : W) where
    same_answer :
        (x : Result Failure Bool) (v : W)
        → is_nbd_device_connected sys device w ≡ (x, v)
        → (is_nbd_device_connected sys device v).0 ≡ x
    same_answer x v e =
        let same : v ≡ w = cc (e, state_stays sys only_reads w device) in rw same (ap (λ r. r.0) e)

    -- What comes after asking for the state of the device: `f` answers where it is connected.
    asked :
        (f : Bool → W → Result Failure (Unit {0}) × W) (r : Result Failure Bool × W)
        → is_nbd_device_connected sys device w ≡ r
        → ((v : W) → f false v ≡ (ok tt, v))
        → ((v : W) → Ended (f true v))
        → Ended (continue f r.0 r.1)
    asked f (ok true, v) e p q = q v
    asked f (ok false, v) e p q = rw (p v) (inl (same_answer (ok false) v e))
    asked f (err (device_not_found d), v) e p q =
        inr (d, same_answer (err (device_not_found d)) v e)
    asked f (err invalid_nbd_dev_name, v) e p q = tt
    asked f (err conn_state_timeout, v) e p q = tt
    asked f (err diverged, v) e p q = tt
    asked f (err (called_process n), v) e p q = tt

  wait_loop-Ended : (fuel deadline : ℕ) (w : W) → Ended (wait_loop sys fuel device false deadline w)
  unfolding wait_loop
  wait_loop-Ended zero deadline w = tt
  wait_loop-Ended (suc fuel) deadline w =
      asked w _ (is_nbd_device_connected sys device w) refl (λ v. refl)
        (λ v. elim (Bool-cases (ltb deadline (sys.now v))) [
          | inl late ↦ rw late tt
          | inr early ↦ rw early (wait_loop-Ended fuel deadline (sys.sleep 1 v))
        ])

  call-Plain : (cmd : Command) (w : W) → Plain (call sys true cmd w).0
  unfolding call
  call-Plain cmd w = elim (Bool-cases ((sys.run cmd w).0 == 0)) [
    | inl done ↦ rw done tt
    | inr failed ↦ rw failed tt
  ]

  named :
      (o : Option Text)
      → Plain (elim o [
        | none ↦ err invalid_nbd_dev_name
        | some n ↦ ok (codes "/var/run/nonpersistent/nbd/" ++ n)
      ])
  named none = tt
  named (some n) = tt

  removed :
      (r : Result Failure Text) (w : W)
      → Plain r
      → Plain ((lift sys r >>= λ f. modify (sys.write_file (remove_info f))) w).0
  removed (ok f) w h = tt
  removed (err (device_not_found d)) w h = h
  removed (err invalid_nbd_dev_name) w h = tt
  removed (err conn_state_timeout) w h = tt
  removed (err diverged) w h = tt
  removed (err (called_process n)) w h = tt

  remove-Plain : (w : W) → Plain (remove_persistent_connect_info sys device w).0
  unfolding remove_persistent_connect_info persistent_connect_info_filename
  remove-Plain w = removed _ w (named (search_number device))

  wait-Ended : (w : W) → Ended (wait_for_nbd_device sys device false w)
  unfolding wait_for_nbd_device
  wait-Ended w = wait_loop-Ended _ _ w

  abbrev body : W → Result Failure (Unit {0}) × W
  body = is_nbd_device_connected sys device >>= λ connected. when connected (
      remove_persistent_connect_info sys device
      >> (call sys true (nbd_disconnect device) >> wait_for_nbd_device sys device false))

  body-Ended : (w : W) → Ended (body w)
  body-Ended w =
      asked w _ (is_nbd_device_connected sys device w) refl (λ v. refl)
        (λ v. go_on _ (remove_persistent_connect_info sys device v) (remove-Plain v) (λ _ u.
          go_on _ (call sys true (nbd_disconnect device) u) (call-Plain (nbd_disconnect device) u)
            (λ _ t. wait-Ended t)))

  gone :
      (r : Result Failure (Unit {0}) × W) → Ended r → (forgive r).0 ≡ ok tt → IsGone (forgive r).1
  gone (ok tt, w) p h = p
  gone (err (device_not_found d), w) p h = p
  gone (err invalid_nbd_dev_name, w) p h = absurd (ground arith)
  gone (err conn_state_timeout, w) p h = absurd (ground arith)
  gone (err diverged, w) p h = absurd (ground arith)
  gone (err (called_process n), w) p h = absurd (ground arith)

  disconnect-IsGone :
      (w : W)
      → (disconnect_nbd_device sys device w).0 ≡ ok tt
      → IsGone (disconnect_nbd_device sys device w).1
  unfolding disconnect_nbd_device ignore_missing
  disconnect-IsGone w h = gone (body w) (body-Ended w) h

  -- If asking for the state of a device changes nothing, a disconnect that returns leaves the device not
  -- connected or not there, and disconnecting it again changes nothing.
  pub disconnect_idempotent :
      (w : W)
      → (disconnect_nbd_device sys device w).0 ≡ ok tt
      → IsGone (disconnect_nbd_device sys device w).1
        × (disconnect_nbd_device sys device (disconnect_nbd_device sys device w).1
            ≡ (ok tt, (disconnect_nbd_device sys device w).1))
  disconnect_idempotent w h = (disconnect-IsGone w h, left_alone _ (disconnect-IsGone w h))
