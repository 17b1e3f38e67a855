-- ===== src/Manager/Ends.antt =====
-- The loops of nbd_client_manager.py end: the wait for a device by its deadline, and the attempts to
-- connect by their number.
use xen_api.Base.{
  ℕ, zero, suc, ◌+◌, ◌≤◌, ◌<◌, ◌≡◌, ◌≢◌, Bool, true, false, Option, none, some, ◌++◌, ltb, ◌==◌,
  if◌then◌else◌, arith, inl, inr, Bool-cases, Option-cases,
}
use xen_api.Base.Bytes.{codes}
use xen_api.Base.Utf8.{Text}
use xen_api.Base.Exec.{Result, ok, err, pure, raise, gets, modify, when, continue, ◌>>=◌, ◌>>◌}
use xen_api.Manager.System.{
  Failure, diverged, invalid_nbd_dev_name, conn_state_timeout, device_not_found, called_process,
  Command, modprobe, udevadm_settle, nbd_check, nbd_path, System, search_number,
  persistent_connect_info_filename,
}
use xen_api.Manager.Client.{
  max_device_wait, differ, lift, call, is_nbd_device_connected, find_from, find_unused_nbd_device,
  wait_loop, wait_for_nbd_device, persist_connect_info, remove_persistent_connect_info,
  write_queue_settings, attempt, backoff, after_attempt, connect_loop, connect_nbd, forgive,
  ignore_missing, disconnect_nbd_device,
}

-- A clock that does not go back: a command takes no negative time, and a sleep at the least its time.
pub record Clock {W : Type 0} (sys : System W) : Type 0 where
  pub run_later : (cmd : Command) (w : W) → sys.now w ≤ sys.now (sys.run cmd w).1
  pub sleep_later : (n : ℕ) (w : W) → sys.now w + n ≤ sys.now (sys.sleep n w)

-- The outcome is no exhausted fuel.
abbrev pub Fine : {A : Type 0} → Result Failure A → Type 0
Fine (ok a) = Unit
Fine (err e) = e ≢ diverged

module _ {W : Type 0} (sys : System W) where
  abbrev Act : Type 0 → Type 0
  Act A = W → Result Failure A × W

  record Ends {A : Type 0} (m : Act A) : Type 0 where
    at : (w : W) → Fine (m w).0

  module _ {A : Type 0} where
    pure-Ends : (a : A) → Ends (pure a)
    pure-Ends a = record { at = λ w. tt }

    raise-Ends : (e : Failure) → e ≢ diverged → Ends (raise {A = A} e)
    raise-Ends e h = record { at = λ w. h }

    gets-Ends : (f : W → A) → Ends (gets f)
    gets-Ends f = record { at = λ w. tt }

    if-Ends : (b : Bool) (m k : Act A) → Ends m → Ends k → Ends (if b then m else k)
    if-Ends true m k p q = p
    if-Ends false m k p q = q

  modify-Ends : (f : W → W) → Ends (modify f)
  modify-Ends f = record { at = λ w. tt }

  when-Ends : (b : Bool) (m : Act (Unit {0})) → Ends m → Ends (when b m)
  when-Ends true m p = p
  when-Ends false m p = record { at = λ w. tt }

  module _ {A B : Type 0} where
    go_on :
        (f : A → Act B) (r : Result Failure A × W)
        → Fine r.0
        → ((a : A) → Ends (f a))
        → Fine (continue f r.0 r.1).0
    go_on f (ok a, w) h p = (p a).at w
    go_on f (err e, w) h p = h

    bind-Ends : (m : Act A) (f : A → Act B) → Ends m → ((a : A) → Ends (f a)) → Ends (m >>= f)
    bind-Ends m f p q = record { at = λ w. go_on f (m w) (p.at w) q }

  not_found-ne : (d : Text) → device_not_found d ≢ diverged
  not_found-ne d e = cc

  called-ne : (n : ℕ) → called_process n ≢ diverged
  called-ne n e = cc

  timeout-ne : conn_state_timeout ≢ diverged
  timeout-ne e = cc

  name-ne : invalid_nbd_dev_name ≢ diverged
  name-ne e = cc

  ruleset ending = (
    pure-Ends, raise-Ends, gets-Ends, if-Ends, modify-Ends, when-Ends, bind-Ends, not_found-ne,
    called-ne,
  )

  call-Ends : (b : Bool) (cmd : Command) → Ends (call sys b cmd)
  unfolding call
  call-Ends true cmd = record {
    at = λ w. elim (Bool-cases ((sys.run cmd w).0 == 0)) [
      | inl done ↦ rw done tt
      | inr failed ↦ rw failed (called-ne (sys.run cmd w).0)
    ];
  }
  call-Ends false cmd = record {
    at = λ w. elim (Bool-cases ((sys.run cmd w).0 == 0)) [
      | inl done ↦ rw done tt
      | inr failed ↦ rw failed tt
    ];
  }

  connected-Ends : (d : Text) → Ends (is_nbd_device_connected sys d)
  unfolding is_nbd_device_connected
  connected-Ends d = search (ending, call-Ends) depth 20

  find-Ends : (number n : ℕ) (last : Text) → Ends (find_from sys number n last)
  unfolding find_from
  find-Ends number zero last = search ending depth 10
  find-Ends number (suc n) last = bind-Ends _ _ (connected-Ends (nbd_path number)) (λ c.
      if-Ends c _ _ (find-Ends (number + 1) n (nbd_path number)) (pure-Ends (nbd_path number)))

  -- Asking for the state of a device takes no negative time.
  connected_later :
      Clock sys → (d : Text) (w : W) → sys.now w ≤ sys.now (is_nbd_device_connected sys d w).1
  unfolding is_nbd_device_connected call
  connected_later clock d w = ground (arith, clock.run_later (nbd_check d) w)

  module _ (clock : Clock sys) (d : Text) (b : Bool) (deadline : ℕ) where
    abbrev next_round : ℕ → Bool → Act (Unit {0})
    next_round fuel state =
        if differ state b
        then (gets sys.now >>= λ time.
            if ltb deadline time
            then raise conn_state_timeout
            else (modify (sys.sleep 1) >> wait_loop sys fuel d b deadline))
        else pure tt

    round :
        (fuel : ℕ) (w : W) (r : Result Failure Bool × W)
        → sys.now w ≤ sys.now r.1
        → deadline + 1 < sys.now w + suc fuel
        → Fine r.0
        → ((v : W)
            → 0 < fuel
            → deadline + 1 < sys.now v + fuel
            → Fine (wait_loop sys fuel d b deadline v).0)
        → Fine (continue (next_round fuel) r.0 r.1).0
    round fuel w (err e, v) l h f p = f
    round fuel w (ok state, v) l h f p = elim (Bool-cases (differ state b)) [
      | inr same ↦ rw same tt
      | inl other ↦ elim (Bool-cases (ltb deadline (sys.now v))) [
        | inl late ↦ rw (other, late) timeout-ne
        | inr early ↦
            rw (other, early)
              (let slept = clock.sleep_later 1 v in
                p (sys.sleep 1 v) (ground (arith, early)) (ground (arith, early)))
      ]
    ]

    wait_loop-Fine :
        (fuel : ℕ) (w : W)
        → 0 < fuel
        → deadline + 1 < sys.now w + fuel
        → Fine (wait_loop sys fuel d b deadline w).0
    unfolding wait_loop
    wait_loop-Fine zero w p h = absurd (omega arith)
    wait_loop-Fine (suc fuel) w p h =
        round fuel w (is_nbd_device_connected sys d w) (connected_later clock d w) h
          ((connected-Ends d).at w) (λ v. wait_loop-Fine fuel v)

  module _ (clock : Clock sys) where
    wait-Ends : (d : Text) (b : Bool) → Ends (wait_for_nbd_device sys d b)
    unfolding wait_for_nbd_device
    wait-Ends d b = record {
      at = λ w.
          wait_loop-Fine clock d b (sys.now w + max_device_wait) (max_device_wait + 2) w
            (omega arith) (omega arith);
    }

    named :
        (o : Option Text)
        → Fine (elim o [
          | none ↦ err invalid_nbd_dev_name
          | some n ↦ ok (codes "/var/run/nonpersistent/nbd/" ++ n)
        ])
    named none = name-ne
    named (some n) = tt

    filename-Fine : (d : Text) → Fine (persistent_connect_info_filename d)
    unfolding persistent_connect_info_filename
    filename-Fine d = named (search_number d)

    lift-Ends : {A : Type 0} (r : Result Failure A) → Fine r → Ends (lift sys r)
    lift-Ends r h = record { at = λ w. h }

    persist-Ends : (d path exportname : Text) → Ends (persist_connect_info sys d path exportname)
    unfolding persist_connect_info
    persist-Ends d path exportname = search (ending, filename-Fine, lift-Ends) depth 10

    queue-Ends : (d : Text) → Ends (write_queue_settings sys d)
    unfolding write_queue_settings
    queue-Ends d = search ending depth 10

    attempt-Ends : (path exportname : Text) → Ends (attempt sys path exportname)
    unfolding attempt find_unused_nbd_device
    attempt-Ends path exportname =
        search (ending, find-Ends, call-Ends, wait-Ends, persist-Ends, queue-Ends) depth 20

    backoff-lt : (n t : ℕ) → backoff n ≡ some t → n < 30
    unfolding backoff
    backoff-lt n t h = ground arith

    -- The next round is of no matter where `backoff` gives up.
    after-Fine :
        (retries : ℕ) (again : ℕ → Act Text) (r : Result Failure Text) (w : W)
        → Fine r
        → (retries + 1 < 30 → Ends (again (retries + 1)))
        → Fine (after_attempt sys retries again r w).0
    unfolding after_attempt
    after-Fine retries again (ok d) w h p = tt
    after-Fine retries again (err (device_not_found d)) w h p =
        elim (Option-cases (backoff (retries + 1))) [
          | inl gave_up ↦ rw (gave_up, after_attempt) (not_found-ne d)
          | inr (time, found) ↦
              rw (found, after_attempt)
                ((p (backoff-lt (retries + 1) time found)).at (sys.sleep time w))
        ]
    after-Fine retries again (err e) w h p = h

    connect_loop-Ends :
        (fuel retries : ℕ) (path exportname : Text)
        → 0 < fuel
        → 30 ≤ fuel + retries
        → Ends (connect_loop sys fuel path exportname retries)
    unfolding connect_loop
    connect_loop-Ends zero retries path exportname p h = absurd (omega arith)
    connect_loop-Ends (suc fuel) retries path exportname p h = record {
      at = λ w.
          after-Fine retries (connect_loop sys fuel path exportname)
            (attempt sys path exportname w).0 (attempt sys path exportname w).1
            ((attempt-Ends path exportname).at w)
            (λ l. connect_loop-Ends fuel (retries + 1) path exportname (omega arith) (omega arith));
    }

    connect_nbd-Ends : (path exportname : Text) → Ends (connect_nbd sys path exportname)
    unfolding connect_nbd
    connect_nbd-Ends path exportname = bind-Ends _ _ (call-Ends true modprobe) (λ _.
        bind-Ends _ _ (call-Ends true udevadm_settle)
          (λ _. connect_loop-Ends 30 0 path exportname (omega arith) (omega arith)))

    ignore-Ends : (m : Act (Unit {0})) → Ends m → Ends (ignore_missing sys m)
    unfolding ignore_missing
    ignore-Ends m p = record { at = λ w. kept (m w) (p.at w) }
      where
        kept : (r : Result Failure (Unit {0}) × W) → Fine r.0 → Fine (forgive r).0
        kept (ok tt, w) h = tt
        kept (err (device_not_found d), w) h = tt
        kept (err invalid_nbd_dev_name, w) h = h
        kept (err conn_state_timeout, w) h = h
        kept (err diverged, w) h = h
        kept (err (called_process n), w) h = h

    remove-Ends : (d : Text) → Ends (remove_persistent_connect_info sys d)
    unfolding remove_persistent_connect_info
    remove-Ends d = search (ending, filename-Fine, lift-Ends) depth 10

    disconnect-Ends : (d : Text) → Ends (disconnect_nbd_device sys d)
    unfolding disconnect_nbd_device
    disconnect-Ends d =
        search (ending, ignore-Ends, connected-Ends, remove-Ends, call-Ends, wait-Ends) depth 20

module _ {W : Type 0} (sys : System W) (clock : Clock sys) (w : W) where
  not_diverged : {A : Type 0} (r : Result Failure A) → Fine r → r ≢ err diverged
  not_diverged (ok a) h e = cc
  not_diverged (err f) h e = h (ground arith)

  -- With a clock that does not go back, connecting to a device ends: the wait by its deadline, and the
  -- attempts after thirty that find no device.
  pub connect_nbd-ends :
      (path exportname : Text) → (connect_nbd sys path exportname w).0 ≢ err diverged
  connect_nbd-ends path exportname =
      not_diverged (connect_nbd sys path exportname w).0
        ((connect_nbd-Ends sys clock path exportname).at w)

  -- With a clock that does not go back, disconnecting a device ends.
  pub disconnect-ends : (device : Text) → (disconnect_nbd_device sys device w).0 ≢ err diverged
  disconnect-ends device =
      not_diverged (disconnect_nbd_device sys device w).0 ((disconnect-Ends sys clock device).at w)
