-- ===== src/Qcow2/Layout/Refcounts.antt =====
-- The loop of qcow2-to-stdout.py over the number of refcount blocks ends, and what it finds has a
-- refcount for every cluster.
use native.Mathlib.Nat.{div-add-mod, mod-lt}
use xen_api.Base.{
  ℕ, zero, suc, ◌+◌, ◌-◌, ◌*◌, ◌≤◌, ◌<◌, ◌≡◌, refl, Option, some, arith, ltb, Bool-cases, inl, inr,
  ltb→lt,
}
use xen_api.Qcow2.Bitmap.{ceil_div}
use xen_api.Qcow2.Layout.{refcount_loop, refcounts}

module _ (n d : ℕ) (h : 0 < d) where
  pub le-ceil_div : n ≤ ceil_div n d * d
  unfolding ceil_div
  le-ceil_div = grind (arith, div-add-mod (n + (d - 1)) d, mod-lt (n + (d - 1)) {m = d} h)

  pub ceil_div-lt : ceil_div n d * d < n + d
  unfolding ceil_div
  ceil_div-lt = grind (arith, div-add-mod (n + (d - 1)) d, mod-lt (n + (d - 1)) {m = d} h)

pub ceil_div-le : (n d k : ℕ) → 0 < d → n ≤ k * d → ceil_div n d ≤ k
ceil_div-le n d k h p =
    le_of_lt_suc (ceil_div n d) k
      (lt_of_mul (ceil_div n d) (suc k) d (grind (arith, ceil_div-lt n d h)))
  where
    lt_of_mul : (a b d : ℕ) → a * d < b * d → a < b
    lt_of_mul a b d q = grind arith

    le_of_lt_suc : (a b : ℕ) → a < suc b → a ≤ b
    le_of_lt_suc a b q = omega arith

pub ceil_div_mono : (a b d : ℕ) → 0 < d → a ≤ b → ceil_div a d ≤ ceil_div b d
ceil_div_mono a b d h p = ceil_div-le a d (ceil_div b d) h (omega (arith, le-ceil_div b d h))

pub ceil_div-le_self : (n d : ℕ) → 0 < d → ceil_div n d ≤ n
ceil_div-le_self n d h = ceil_div-le n d n h (grind arith)

module _ (total per_block per_table : ℕ) (hb : 3 ≤ per_block) (ht : 0 < per_table) where
  -- The clusters that `b` refcount blocks and their tables make of the content.
  abbrev needed : ℕ → ℕ
  needed b = total + ceil_div b per_table + b

  below_total : (b : ℕ) → b ≤ total → ceil_div (needed b) per_block ≤ total
  below_total b h =
      ceil_div-le (needed b) per_block total (omega arith)
        (grind (arith, ceil_div-le_self b per_table ht))

  least : (b k : ℕ) → b ≤ k → needed k ≤ k * per_block → ceil_div (needed b) per_block ≤ k
  least b k p q =
      ceil_div-le (needed b) per_block k (omega arith)
        (omega (arith, ceil_div_mono b k per_table ht p))

  -- What the loop has found.
  pub record Settled (r : Option (ℕ × ℕ)) : Type 0 where
    pub blocks : ℕ
    pub found : r ≡ some (blocks, ceil_div blocks per_table)
    pub enough : needed blocks ≤ blocks * per_block
    pub fewest : (k : ℕ) → needed k ≤ k * per_block → blocks ≤ k

  loop_settles :
      (fuel b : ℕ)
      → b ≤ total
      → total - b < fuel
      → ((k : ℕ) → needed k ≤ k * per_block → b ≤ k)
      → Settled (refcount_loop fuel total per_block per_table b (ceil_div b per_table))
  unfolding refcount_loop
  loop_settles zero b h m f = absurd (omega arith)
  loop_settles (suc fuel) b h m f =
      let new = ceil_div (needed b) per_block in
      elim (Bool-cases (ltb b new)) [
        | inl more ↦ rw more (
            loop_settles fuel new (below_total b h) (omega (arith, ltb→lt, below_total b h))
              (λ k p. least b k (f k p) p))
        | inr done ↦ rw done (record {
          blocks = b;
          found = refl;
          enough =
              grow b new (le-ceil_div (needed b) per_block (omega arith)) (ground (arith, done));
          fewest = f;
        })
      ]
    where
      grow : (b new : ℕ) → needed b ≤ new * per_block → new ≤ b → needed b ≤ b * per_block
      grow b new p q = grind arith

  -- With at least three refcounts in a block and a table that is not empty, the loop over the refcount
  -- blocks ends; its count of blocks has room for a refcount of every cluster, the refcount blocks and
  -- tables included, and no smaller count has.
  pub refcounts-Settled : Settled (refcounts total per_block per_table)
  unfolding refcounts
  refcounts-Settled =
      loop_settles (total + 1) (ceil_div total per_block) (below total) (omega arith)
        (λ k p. ceil_div-le total per_block k (omega arith) (omega arith))
    where
      below : (n : ℕ) → ceil_div n per_block ≤ n
      below n = ceil_div-le_self n per_block (omega arith)
