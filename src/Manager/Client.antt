-- ===== src/Manager/Client.antt =====
-- python3/libexec/nbd_client_manager.py: connecting and disconnecting. The file lock is held over one
-- attempt; a world is what one process sees, so it has no operation here.
use xen_api.Base.{
  ℕ, zero, suc, ◌+◌, ◌*◌, Bool, true, false, not, Option, none, some, [], ltb, ◌==◌, if◌then◌else◌,
}
use xen_api.Base.Bytes.{codes}
use xen_api.Base.Utf8.{Text}
use xen_api.Base.Exec.{Exec, Result, ok, err, pure, raise, gets, modify, when, ◌>>=◌, ◌>>◌}
use xen_api.Manager.System.{
  Failure, diverged, conn_state_timeout, device_not_found, called_process, Command, modprobe,
  udevadm_settle, nbd_check, nbd_connect, nbd_disconnect, connect_info, remove_info, queue_setting,
  System, nbd_path, persistent_connect_info_filename,
}
use xen_api.Base.Words.{behind}

abbrev pub nle_busy : ℕ
nle_busy = 25

-- MAX_DEVICE_WAIT_MINUTES, in tenths of a second
abbrev pub max_device_wait : ℕ
max_device_wait = 10 * 60 * 10

-- `a != b` on truth values
abbrev pub differ : Bool → Bool → Bool
differ true b = not b
differ false b = b

-- How long to sleep before the next attempt, by the number of those that failed; `none` gives up.
unfoldable pub backoff : ℕ → Option ℕ
backoff retries = if retries == 1 then some 100 else if ltb retries 30 then some 600 else none

-- The name without `/dev/`.
short_name : Text → Text
short_name device = elim (behind (codes "/dev/") device) [ none ↦ device | some rest ↦ rest ]

-- `except NbdDeviceNotFound: pass`
abbrev pub forgive : {W : Type 0} → Result Failure (Unit {0}) × W → Result Failure (Unit {0}) × W
forgive (err (device_not_found device), w) = (ok tt, w)
forgive r = r

module _ {W : Type 0} (sys : System W) where
  abbrev Act : Type 0 → Type 0
  Act A = Exec Failure W A

  -- `_call(cmd_args, raise_err)`
  unfoldable pub call : Bool → Command → Act ℕ
  call raise_err cmd w =
      let (code, w') = sys.run cmd w in
      if (not (code == 0))
      then (if raise_err then (err (called_process code), w') else (ok code, w'))
      else (ok code, w')

  unfoldable pub is_nbd_device_connected : Text → Act Bool
  is_nbd_device_connected device = do
    present ← gets (λ w. sys.exists w device)
    if present
        then (do
          code ← call false (nbd_check device)
          if code == 0
              then pure true
              else if code == 1
              then pure false
              else raise (called_process code))
        else raise (device_not_found device)

  -- for device_no in range(number, number + n)
  unfoldable pub find_from : ℕ → ℕ → Text → Act Text
  find_from number zero last = raise (device_not_found last)
  find_from number (suc n) last = do
    connected ← is_nbd_device_connected (nbd_path number)
    if connected then find_from (number + 1) n (nbd_path number) else pure (nbd_path number)

  unfoldable pub find_unused_nbd_device : Act Text
  find_unused_nbd_device = find_from 0 1000 []

  -- `while ... != connected`, against the deadline; a round sleeps a tenth of a second.
  unfoldable pub wait_loop : ℕ → Text → Bool → ℕ → Act (Unit {0})
  wait_loop zero device connected deadline = raise diverged
  wait_loop (suc fuel) device connected deadline = do
    state ← is_nbd_device_connected device
    if differ state connected
        then (do
          time ← gets sys.now
          if ltb deadline time
              then raise conn_state_timeout
              else (do modify (sys.sleep 1); wait_loop fuel device connected deadline))
        else pure tt

  unfoldable pub wait_for_nbd_device : Text → Bool → Act (Unit {0})
  wait_for_nbd_device device connected = do
    time ← gets sys.now
    wait_loop (max_device_wait + 2) device connected (time + max_device_wait)

  abbrev pub lift : {A : Type 0} → Result Failure A → Act A
  lift r w = (r, w)

  unfoldable pub persist_connect_info : Text → Text → Text → Act (Unit {0})
  persist_connect_info device path exportname = do
    filename ← lift (persistent_connect_info_filename device)
    modify (sys.write_file (connect_info filename path exportname))

  -- Only an OSError is caught, not a name with no number.
  unfoldable pub remove_persistent_connect_info : Text → Act (Unit {0})
  remove_persistent_connect_info device = do
    filename ← lift (persistent_connect_info_filename device)
    modify (sys.write_file (remove_info filename))

  unfoldable pub write_queue_settings : Text → Act (Unit {0})
  unfolding short_name
  write_queue_settings device = do
    modify (sys.write_file (queue_setting (short_name device) (codes "scheduler") (codes "none")))
    modify
        (sys.write_file (queue_setting (short_name device) (codes "max_sectors_kb") (codes "512")))
    modify (sys.write_file (queue_setting (short_name device) (codes "nr_requests") (codes "8")))

  -- What `connect_nbd` does under the lock.
  unfoldable pub attempt : Text → Text → Act Text
  attempt path exportname = do
    device ← find_unused_nbd_device
    ret ← call false (nbd_connect path device exportname)
    if ret == nle_busy
        then raise (device_not_found device)
        else if not (ret == 0)
        then raise (called_process ret)
        else (do
          wait_for_nbd_device device true
          persist_connect_info device path exportname
          write_queue_settings device
          pure device)

  -- `except NbdDeviceNotFound`: `again` is the next round of the loop.
  unfoldable pub after_attempt : ℕ → (ℕ → Act Text) → Result Failure Text → Act Text
  after_attempt retries again (err (device_not_found device)) = elim (backoff (retries + 1)) [
    | none ↦ raise (device_not_found device)
    | some time ↦ (do modify (sys.sleep time); again (retries + 1))
  ]
  after_attempt retries again r = λ w. (r, w)

  unfoldable pub connect_loop : ℕ → Text → Text → ℕ → Act Text
  connect_loop zero path exportname retries w = (err diverged, w)
  connect_loop (suc fuel) path exportname retries w =
      let (r, w') = attempt path exportname w in
      after_attempt retries (connect_loop fuel path exportname) r w'

  unfoldable pub connect_nbd : Text → Text → Act Text
  connect_nbd path exportname = do
    call true modprobe
    call true udevadm_settle
    connect_loop 30 path exportname 0

  unfoldable pub ignore_missing : Act (Unit {0}) → Act (Unit {0})
  ignore_missing m w = forgive (m w)

  unfoldable pub disconnect_nbd_device : Text → Act (Unit {0})
  disconnect_nbd_device device = ignore_missing (do
    connected ← is_nbd_device_connected device
    when connected (do
      remove_persistent_connect_info device
      call true (nbd_disconnect device)
      wait_for_nbd_device device false))
