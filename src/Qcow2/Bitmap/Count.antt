-- ===== src/Qcow2/Bitmap/Count.antt =====
-- How many indices of a bitmap of qcow2-to-stdout.py are set.
use xen_api.Base.{
  ℕ, zero, suc, ◌+◌, ◌≡◌, Bool, true, false, ◌&&◌, not, leb, ltb, ◌==◌, if◌then◌else◌, length,
  arith,
}
use xen_api.Qcow2.Bitmap.{Bitmap, bitmap_is_set, test, set_from}
use xen_api.Qcow2.Bitmap.Laws.{SetAt}

-- The number of indices among the `n` from `idx` on that are set.
abbrev pub count_from : Bitmap → ℕ → ℕ → ℕ
count_from bitmap idx n = length (set_from bitmap idx n)

abbrev pub bit : Bool → ℕ
bit true = 1
bit false = 0

pub count_step :
    (bs : Bitmap) (idx n : ℕ)
    → count_from bs idx (suc n) ≡ bit (test (bitmap_is_set bs idx)) + count_from bs (idx + 1) n
unfolding set_from
count_step bs idx n = ground arith

module _ (bs bs' : Bitmap) (i : ℕ) (s : SetAt bs i bs') where
  pub test-SetAt :
      (j : ℕ) → test (bitmap_is_set bs' j) ≡ (if i == j then true else test (bitmap_is_set bs j))
  test-SetAt j = ground (arith, s.digit j)

  -- Setting an index that was not set counts one more, where the index is in range.
  pub count-SetAt :
      (idx n : ℕ)
      → count_from bs' idx n
        ≡ count_from bs idx n
          + bit ((leb idx i && ltb i (idx + n)) && not (test (bitmap_is_set bs i)))
  unfolding set_from
  count-SetAt idx zero = ground arith
  count-SetAt idx (suc n) =
      let rest = count-SetAt (idx + 1) n in
      ground (arith, count_step bs idx n, count_step bs' idx n, test-SetAt idx, rest)
