-- ===== src/Tests/Others.antt =====
-- The theorems on the other programs at concrete inputs.
use mathlib.Core.Logic.{◌≢◌, ◌↔◌}
use xen_api.Base.{
  length, Bool, ℕ, ◌+◌, ◌≡◌, refl, true, false, some, none, List, [], ◌∷◌, ◌++◌, replicate, arith,
  if◌then◌else◌, ◌||◌,
}
use xen_api.Base.Bytes.{codes, bytes_eq}
use xen_api.Base.Utf8.{Text}
use xen_api.Base.Words.{is_space}
use xen_api.Base.Exec.{ok, err}
use xen_api.Qcow2.Bitmap.{set_from, bitmap_set, bitmap_is_set, ceil_div, align_up}
use xen_api.Qcow2.Bitmap.Laws.{SetAt, bitmap_set-SetAt}
use xen_api.Qcow2.Interval.{Intervals, contains}
use xen_api.Qcow2.Interval.Search.{covered, IsSorted}
use xen_api.Qcow2.Interval.Effects.{contains-covered, contains_others, contains_inside}
use xen_api.Qcow2.Alloc.{
  Alloc, Job, allocate_cluster, allocate_l2_table, allocate_range, allocate_intervals, allocate_map,
}
use xen_api.Qcow2.Alloc.Invariant.{IsConsistent, allocate_cluster-IsConsistent}
use xen_api.Qcow2.Alloc.Choice.{choose-IsConsistent}
use xen_api.Qcow2.Layout.{layout, content_clusters, sizes, start_alloc, choose, refcounts}
use xen_api.Qcow2.Layout.Refcounts.{Settled, refcounts-Settled}
use xen_api.Qcow2.Write.{write_clusters}
use xen_api.Qcow2.Write.Size.{length-write_clusters}
use xen_api.Usb.Types.{Device, unbound_local}
use xen_api.Usb.Policy.{Rule, parse_line, check, class}
use xen_api.Usb.Policy.Lines.{RuleIsWellFormed, parse_line-IsWellFormed}
use xen_api.Usb.Policy.Check.{EachAllowed, check-EachAllowed}
use xen_api.Usb.Policy.Comments.{indented_comment_fails}
use xen_api.Manager.System.{
  System, Command, diverged, nbd_check, nbd_disconnect, nbd_path, digits, search_number,
  persistent_connect_info_filename,
}
use xen_api.Base.Words.{behind, decimal}
use xen_api.Manager.Client.{
  ignore_missing, remove_persistent_connect_info, wait_for_nbd_device, wait_loop, call,
  is_nbd_device_connected, find_from, connect_nbd, disconnect_nbd_device, find_unused_nbd_device,
}
use xen_api.Manager.Disconnect.{IsGone, disconnect_idempotent}
use xen_api.Manager.Ends.{Clock, connect_nbd-ends, disconnect-ends}
use xen_api.Manager.Devices.{IsFirstFree, find_unused-IsFirstFree}

abbrev two_intervals : Intervals
two_intervals = (0, 2) ∷ (4, 9) ∷ []

two_intervals-IsSorted : IsSorted two_intervals
two_intervals-IsSorted = (omega arith, (omega arith, tt), (omega arith, tt, tt))

contains_example : (contains two_intervals 3).0 ≡ false
contains_example = contains-covered two_intervals 3 two_intervals-IsSorted

contains_others_example : covered (contains two_intervals 6).1 8 ≡ true
contains_others_example = contains_others two_intervals 6 two_intervals-IsSorted 8 (λ e. cc)

contains_inside_example :
    ((contains two_intervals 6).0 ≡ true) × (covered (contains two_intervals 6).1 6 ≡ true)
contains_inside_example =
    contains_inside two_intervals 6 two_intervals-IsSorted 1 4 9 refl (omega arith) (omega arith)

bitmap_set_example : SetAt (1 ∷ 0 ∷ []) 10 (1 ∷ 4 ∷ [])
unfolding bitmap_set
bitmap_set_example =
    bitmap_set-SetAt (1 ∷ 0 ∷ []) 10 (1 ∷ 4 ∷ []) (omega arith, (omega arith, tt)) refl

refcounts_example : Settled 100000 256 64 (omega arith) (omega arith) (refcounts 100000 256 64)
refcounts_example = refcounts-Settled 100000 256 64 (omega arith) (omega arith)

parse_line_example :
    RuleIsWellFormed (parse_line (codes "ALLOW: vid=056a pid=0315 class=03 # a tablet"))
parse_line_example = parse_line-IsWellFormed (codes "ALLOW: vid=056a pid=0315 class=03 # a tablet")

indented_comment_example : parse_line (codes "  # a comment") ≡ err unbound_local
unfolding is_space
indented_comment_example =
    indented_comment_fails b' ' (codes " ") (codes " a comment") (refl, (refl, tt))

-- Clusters of 8 entries of 64 bytes; the second has a byte that is not zero.
abbrev job : Job
job = record {
  input = replicate 100 0 ++ 1 ∷ replicate 60 0;
  cluster_size = 64;
  refcount_bits = 16;
  data_file_name = none;
  data_file_raw = false;
  diff_file = none;
  virtual_size = none;
  nonzero_clusters = some ((1, 1) ∷ []);
  diff_virtual_size = none;
  diff_nonzero_clusters = none;
}

chosen : (choose job (sizes job) (start_alloc job (sizes job))).0 ≡ ok tt
unfolding choose sizes start_alloc allocate_map allocate_intervals allocate_range allocate_cluster
    allocate_l2_table bitmap_set bitmap_is_set ceil_div align_up
chosen = refl

choose_example : IsConsistent 8 (choose job (sizes job) (start_alloc job (sizes job))).1
choose_example = choose-IsConsistent job refl chosen

-- One cluster more, in the table that is there.
abbrev one_chosen : Alloc
one_chosen = (choose job (sizes job) (start_alloc job (sizes job))).1

allocate_example : IsConsistent 8 (allocate_cluster 8 2 one_chosen).1
unfolding choose sizes start_alloc allocate_map allocate_intervals allocate_range allocate_cluster
    allocate_l2_table bitmap_set bitmap_is_set ceil_div align_up
allocate_example =
    allocate_cluster-IsConsistent 8 2 one_chosen (choose-IsConsistent job refl chosen) refl

abbrev keyboard : Device
keyboard = record {
  node = codes "1-2";
  props = λ k. some (codes "056a");
  interfaces = record { node = codes "1-2:1.0"; props = λ k. some (codes "03") } ∷ [];
}

abbrev rules : List Rule
rules =
    record { allow = true; tags = (class, codes "03") ∷ [] }
    ∷ record { allow = false; tags = [] }
    ∷ []

check_example : (check rules keyboard ≡ ok true) ↔ EachAllowed rules keyboard keyboard.interfaces
check_example = check-EachAllowed rules keyboard

-- Devices 0 and 1, of which the first is connected; the state is the time.
abbrev state_of : Text → ℕ
state_of d = if bytes_eq d (codes "/dev/nbd0") then 0 else 1

abbrev exit_code : Command → ℕ
exit_code (nbd_check d) = state_of d
exit_code _ = 0

abbrev host : System ℕ
host = record {
  exists = λ w d. bytes_eq d (codes "/dev/nbd0") || bytes_eq d (codes "/dev/nbd1");
  run = λ cmd w. (exit_code cmd, w);
  write_file = λ f w. w;
  now = λ w. w;
  sleep = λ n w. w + n;
}

host-Clock : Clock host
host-Clock = record { run_later = λ cmd w. omega arith; sleep_later = λ n w. omega arith }

connect_nbd_example : (connect_nbd host (codes "/run/nbd") (codes "disk") 0).0 ≢ err diverged
connect_nbd_example = connect_nbd-ends host host-Clock 0 (codes "/run/nbd") (codes "disk")

disconnect_example : (disconnect_nbd_device host (codes "/dev/nbd0") 0).0 ≢ err diverged
disconnect_example = disconnect-ends host host-Clock 0 (codes "/dev/nbd0")

find_unused_example : IsFirstFree host (λ d w. refl) 0 0 1000 (codes "/dev/nbd1")
unfolding find_unused_nbd_device find_from is_nbd_device_connected nbd_path bytes_eq call decimal
find_unused_example = find_unused-IsFirstFree host (λ d w. refl) 0 (codes "/dev/nbd1") refl

-- One device; the state is whether it is connected.
abbrev switch_run : Command → Bool → ℕ × Bool
switch_run (nbd_check d) w = (if w then 0 else 1, w)
switch_run (nbd_disconnect d) w = (0, false)
switch_run cmd w = (0, w)

abbrev switch : System Bool
switch = record {
  exists = λ w d. true;
  run = switch_run;
  write_file = λ f w. w;
  now = λ w. 0;
  sleep = λ n w. w;
}

disconnect_idempotent_example :
    IsGone switch (λ d w. refl) (codes "/dev/nbd0") false
    × (disconnect_nbd_device switch (codes "/dev/nbd0") false ≡ (ok tt, false))
unfolding disconnect_nbd_device ignore_missing is_nbd_device_connected call
    remove_persistent_connect_info persistent_connect_info_filename search_number behind digits
    wait_for_nbd_device wait_loop
disconnect_idempotent_example =
    disconnect_idempotent switch (λ d w. refl) (codes "/dev/nbd0") true refl

-- The job above: its first and only L1 entry and its second cluster are set.
length_example :
    length (
      write_clusters job
        (sizes job)
        one_chosen
        (layout (sizes job) one_chosen (content_clusters job (sizes job) one_chosen) (1, 1)))
    ≡ 6
unfolding choose sizes start_alloc allocate_map allocate_intervals allocate_range allocate_cluster
    allocate_l2_table bitmap_set bitmap_is_set ceil_div align_up set_from content_clusters layout
length_example = length-write_clusters job (sizes job) one_chosen 1 (omega arith) refl refl
