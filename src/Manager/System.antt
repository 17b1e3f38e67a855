-- ===== src/Manager/System.antt =====
-- python3/libexec/nbd_client_manager.py: what it uses of the system, and the names of devices.
use xen_api.Base.{ℕ, Bool, Option, none, some, [], ◌∷◌, ◌++◌, ◌&&◌, leb, if◌then◌else◌}
use xen_api.Base.Bytes.{codes}
use xen_api.Base.Words.{decimal, behind}
use xen_api.Base.Utf8.{Text}
use xen_api.Base.Exec.{Result, ok, err}

-- `called_process`: a command ended with this exit code; `diverged`: the fuel of a loop ran out.
pub data Failure : Type 0 where
  invalid_nbd_dev_name conn_state_timeout diverged : Failure
  device_not_found : Text → Failure
  called_process : ℕ → Failure

-- The commands that the program runs, with their arguments.
pub data Command : Type 0 where
  modprobe udevadm_settle : Command
  nbd_check nbd_disconnect : Text → Command
  nbd_connect : Text → Text → Text → Command

-- The files that the program writes or removes.
pub data FileWrite : Type 0 where
  connect_info : Text → Text → Text → FileWrite
  remove_info : Text → FileWrite
  queue_setting : Text → Text → Text → FileWrite

-- The operating system and the programs that are run are not part of the repository. Time is in tenths
-- of a second.
pub record System (W : Type 0) : Type 0 where
  pub exists : W → Text → Bool
  pub run : Command → W → ℕ × W
  pub write_file : FileWrite → W → W
  pub now : W → ℕ
  pub sleep : ℕ → W → W

unfoldable pub nbd_path : ℕ → Text
nbd_path n = codes "/dev/nbd" ++ decimal n

unfoldable pub digits : Text → Text
digits [] = []
digits (c ∷ cs) = let rest = digits cs in if leb b'0' c && leb c b'9' then c ∷ rest else []

-- A match of `/dev/nbd([0-9]+)` at the start: its group.
match_here : Option Text → Option Text
match_here none = none
match_here (some s) = elim (digits s) [ [] ↦ none | (c ∷ cs) ↦ some (c ∷ cs) ]

or_else : Option Text → Option Text → Option Text
or_else none o = o
or_else (some t) o = some t

-- `re.search("/dev/nbd([0-9]+)", device)`
unfoldable pub search_number : Text → Option Text
unfolding match_here or_else
search_number [] = none
search_number (c ∷ cs) =
    or_else (match_here (behind (codes "/dev/nbd") (c ∷ cs))) (search_number cs)

unfoldable pub persistent_connect_info_filename : Text → Result Failure Text
unfolding search_number
persistent_connect_info_filename device = elim (search_number device) [
  | none ↦ err invalid_nbd_dev_name
  | some number ↦ ok (codes "/var/run/nonpersistent/nbd/" ++ number)
]
