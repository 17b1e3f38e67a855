-- ===== src/Qcow2/Interval.antt =====
-- python3/libexec/qcow2-to-stdout.py: the class `Interval`, a sorted list of closed intervals from
-- which a membership test removes what it finds.
pub mod Search
pub mod Effects
use xen_api.Base.{
  ℕ, zero, suc, ◌+◌, ◌-◌, ◌/◌, Bool, true, false, Option, none, some, List, [], ◌∷◌, ◌&&◌, ◌||◌,
  ltb, leb, ◌==◌, if◌then◌else◌, length, get_elem?, set,
}

abbrev pub Intervals : Type 0
Intervals = List (ℕ × ℕ)

-- `list.sort(key=lambda x: x[0])`, which is stable
insert_sorted : ℕ × ℕ → Intervals → Intervals
insert_sorted iv [] = iv ∷ []
insert_sorted iv (j ∷ js) =
    let later = j ∷ insert_sorted iv js in if leb iv.0 j.0 then iv ∷ j ∷ js else later

unfoldable pub make_interval : Intervals → Intervals
unfolding insert_sorted
make_interval [] = []
make_interval (iv ∷ ivs) = insert_sorted iv (make_interval ivs)

-- `del intervals[i]`
unfoldable pub delete_at : Intervals → ℕ → Intervals
delete_at [] i = []
delete_at (iv ∷ ivs) zero = ivs
delete_at (iv ∷ ivs) (suc i) = iv ∷ delete_at ivs i

-- `intervals.insert(i, iv)`
unfoldable pub insert_at : Intervals → ℕ → ℕ × ℕ → Intervals
insert_at ivs zero iv = iv ∷ ivs
insert_at [] (suc i) iv = iv ∷ []
insert_at (j ∷ ivs) (suc i) iv = j ∷ insert_at ivs i iv

-- The binary search. `h` is one more than the `h` of the code, which may become -1; the loop runs
-- while `l < h`, and `none` is its end without a hit.
unfoldable pub search_interval : ℕ → Intervals → ℕ → ℕ → ℕ → Option (ℕ × ℕ × ℕ)
search_interval zero ivs cluster l h = none
search_interval (suc fuel) ivs cluster l h =
    let mid = (l + (h - 1)) / 2 in
    let lower = search_interval fuel ivs cluster l mid in
    let upper = search_interval fuel ivs cluster (mid + 1) h in
    if ltb l h
    then (elim (get_elem? ivs mid) [
      | none ↦ none
      | some (left, right) ↦
          if leb left cluster && leb cluster right
          then some (mid, left, right)
          else if ltb cluster left
          then lower
          else upper
    ])
    else none

-- What a hit at `mid` does to the list.
unfoldable pub take_out : Intervals → ℕ → ℕ × ℕ × ℕ → Intervals
unfolding delete_at insert_at
take_out ivs cluster (mid, left, right) =
    if (cluster == left) && (cluster == right)
    then delete_at ivs mid
    else if cluster == left
    then set ivs mid (left + 1, right)
    else if cluster == right
    then set ivs mid (left, right - 1)
    else set (insert_at ivs (mid + 1) (cluster + 1, right)) mid (left, cluster)

abbrev pub first_left : Intervals → ℕ
first_left [] = 0
first_left (iv ∷ _) = iv.0

abbrev pub last_right : Intervals → ℕ
last_right [] = 0
last_right (iv ∷ []) = iv.1
last_right (_ ∷ iv ∷ ivs) = last_right (iv ∷ ivs)

-- `cluster in intervals`: the answer, and the list that is left
unfoldable pub contains : Intervals → ℕ → Bool × Intervals
unfolding search_interval take_out
contains ivs cluster =
    if (length ivs == 0) || (ltb (last_right ivs) cluster || ltb cluster (first_left ivs))
    then (false, ivs)
    else elim (search_interval (length ivs) ivs cluster 0 (length ivs)) [
      | none ↦ (false, ivs)
      | some hit ↦ (true, take_out ivs cluster hit)
    ]
