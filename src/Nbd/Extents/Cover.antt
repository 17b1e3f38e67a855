-- ===== src/Nbd/Extents/Cover.antt =====
-- What get_nbd_extents.py promises: the extents exactly cover the area that is asked for.
use xen_api.Base.{
  ℕ, zero, suc, ◌+◌, ◌-◌, ◌≤◌, ◌<◌, ◌≡◌, refl, Bool, true, false, Option, none, some, List, [], ◌∷◌,
  ◌++◌, ltb, leb, arith, min, leb→le,
}
use xen_api.Base.Int.{ℤ, pos, negsuc}
use xen_api.Base.Utf8.{Text}
use xen_api.Base.Exec.{Result, ok, err, gets, or_raise, guard, ◌>>=◌, ◌>>◌}
use xen_api.Nbd.Types.{Client, Error, Nbd, protocol, value_error}
use xen_api.Nbd.Results.{Ensures, Gives, pure-Gives, raise-Gives, if-Gives, bind-Gives, then-Gives}
use xen_api.Nbd.Handshake.{rounds, start}
use xen_api.Nbd.Replies.{Chunk}
use xen_api.Nbd.Commands.{close, query_block_status}
use xen_api.Nbd.Extents.{
  take_extents, process_reply, assert_one, extents_loop, max_request_len, area, extents_of,
  with_client, get_extents,
}

-- The bytes in some extents.
abbrev pub total : List (ℕ × ℕ) → ℕ
total [] = 0
total ((len, flags) ∷ es) = len + total es

total-append : (xs ys : List (ℕ × ℕ)) → total (xs ++ ys) ≡ total xs + total ys
total-append [] ys = omega arith
total-append ((len, flags) ∷ xs) ys = omega (arith, total-append xs ys)

guard-Gives :
    {A : Type 0} (P : A → Type 0) (b : Bool) (e : Error) (k : Nbd A)
    → (b ≡ true → Gives P k)
    → Gives P (guard b e >> k)
guard-Gives P true e k p = record { at = (p refl).at }
guard-Gives P false e k p = record { at = λ c. tt }

-- Some extents from `offset` on, and the offset behind them.
abbrev Covers : ℕ → ℕ → List (ℕ × ℕ) × ℕ → Type 0
Covers end offset (es, next) = (total es + offset ≡ next) × (next ≤ end)

take-Gives :
    (end : ℕ) (ds : List (ℕ × ℕ)) (offset : ℕ)
    → offset ≤ end
    → Gives (Covers end offset) (take_extents end ds offset)
unfolding take_extents
take-Gives end [] offset h = pure-Gives (Covers end offset) ([], offset) (omega arith, h)
take-Gives end ((len, flags) ∷ []) offset h =
    guard-Gives (Covers end offset) (leb (offset + min len (end - offset)) end) protocol _ λ b.
      pure-Gives (Covers end offset)
        ((min len (end - offset), flags) ∷ [], offset + min len (end - offset))
        (omega arith, leb→le _ end b)
take-Gives end ((len, flags) ∷ d ∷ ds) offset h = guard-Gives (Covers end offset) _ protocol _ λ b.
    bind-Gives (Covers end (offset + len)) (Covers end offset)
      (take_extents end (d ∷ ds) (offset + len)) _
      (take-Gives end (d ∷ ds) (offset + len) (leb→le _ end b))
      λ r p. pure-Gives (Covers end offset) _ (omega (arith, p.0), p.1)

process-Gives :
    (id end : ℕ) (reply : Chunk) (offset : ℕ)
    → offset ≤ end
    → Gives (Covers end offset) (process_reply id end reply offset)
unfolding process_reply
process-Gives id end reply offset h =
    search (raise-Gives, if-Gives, then-Gives, guard-Gives, take-Gives, h) depth 20

loop-Gives :
    (fuel id end offset : ℕ)
    → offset ≤ end
    → Gives (λ es. total es + offset ≡ end) (extents_loop fuel id end offset)
unfolding extents_loop
loop-Gives zero id end offset h = raise-Gives _ _
loop-Gives (suc fuel) id end offset h =
    if-Gives Rest (ltb offset end) _ _
      (λ b.
        then-Gives Rest (query_block_status offset (min max_request_len (end - offset))) _
          λ replies. then-Gives Rest (assert_one replies) _ λ reply.
            bind-Gives (Covers end offset) Rest (process_reply id end reply offset) _
              (process-Gives id end reply offset h)
              λ r p.
                bind-Gives (λ es. total es + r.1 ≡ end) Rest (extents_loop fuel id end r.1) _
                  (loop-Gives fuel id end r.1 p.1)
                  λ es q. pure-Gives Rest (r.0 ++ es) (omega (arith, total-append r.0 es, p.0, q)))
      (λ b. pure-Gives Rest [] (ground arith))
  where
    Rest : List (ℕ × ℕ) → Type 0
    Rest es = total es + offset ≡ end

or_raise-Gives : {A : Type 0} (o : Option A) (e : Error) → Gives (λ a. o ≡ some a) (or_raise o e)
or_raise-Gives none e = record { at = λ c. tt }
or_raise-Gives (some a) e = record { at = λ c. refl }

-- The lengths of the extents add up to the length that is asked for, which is not zero.
abbrev pub CoversArea : ℤ → ℤ → List (ℕ × ℕ) → Type 0
CoversArea offset len es =
    (from : ℕ) × (n : ℕ) × (offset ≡ pos from) × (len ≡ pos n) × (0 < n) × (total es ≡ n)

area_is :
    (offset len : ℤ) (size : ℕ) (r : ℕ × ℕ)
    → area offset len size ≡ some r
    → (from : ℕ) × (n : ℕ) × (offset ≡ pos from) × (len ≡ pos n) × (0 < n) × (r ≡ (from, from + n))
area_is (pos from) (pos n) size r h = (from, n, refl, refl, ground arith, ground arith)
area_is (pos from) (negsuc n) size r h = absurd (ground arith)
area_is (negsuc from) len size r h = absurd (ground arith)

pub weaken-Gives :
    {A : Type 0} (P Q : A → Type 0) (m : Nbd A) → ((a : A) → P a → Q a) → Gives P m → Gives Q m
weaken-Gives {A = A} P Q m f g = record { at = λ c. weaker (m c) (g.at c) }
  where
    weaker : (r : Result Error A × Client) → Ensures P r → Ensures Q r
    weaker (ok a, c) p = f a p
    weaker (err e, c) p = tt

module _ (offset len : ℤ) where
  area-Gives :
      (size fuel id : ℕ) (r : ℕ × ℕ)
      → area offset len size ≡ some r
      → Gives (CoversArea offset len) (extents_loop fuel id r.1 r.0)
  area-Gives size fuel id r e =
      let (from, n, p, q, l, same) = area_is offset len size r e in
      weaken-Gives (λ es. total es + r.0 ≡ r.1) (CoversArea offset len)
        (extents_loop fuel id r.1 r.0) (λ es t. (from, n, p, q, l, ground (arith, same)))
        (loop-Gives fuel id r.1 r.0 (ground (arith, same)))

  sized-Gives :
      (size id : ℕ)
      → Gives (CoversArea offset len) (
          or_raise (area offset len size) value_error >>= λ r.
          gets rounds >>= λ fuel. extents_loop fuel id r.1 r.0)
  sized-Gives size id =
      bind-Gives (λ r. area offset len size ≡ some r) (CoversArea offset len) _
        (λ r. gets rounds >>= λ fuel. extents_loop fuel id r.1 r.0)
        (or_raise-Gives (area offset len size) value_error)
        λ r e.
          then-Gives (CoversArea offset len) (gets rounds) (λ fuel. extents_loop fuel id r.1 r.0)
            λ fuel. area-Gives size fuel id r e

  extents_of-Gives :
      (exportname : Text) → Gives (CoversArea offset len) (extents_of exportname offset len)
  unfolding extents_of
  extents_of-Gives exportname = search (then-Gives, sized-Gives) depth 20

with_client-Gives :
    {A : Type 0} (P : A → Type 0) (body : Nbd A) → Gives P body → Gives P (with_client body)
unfolding with_client
with_client-Gives {A = A} P body g = record {
  at = λ c. closed (body c) (close (body c).1) (g.at c);
}
  where
    closed :
        (r : Result Error A × Client) (q : Result Error (Unit {0}) × Client)
        → Ensures P r
        → Ensures P (elim q.0 [ err e ↦ (err e, q.1) | ok _ ↦ (r.0, q.1) ])
    closed (ok a, c) (ok u, d) h = h
    closed (ok a, c) (err e, d) h = tt
    closed (err f, c) (ok u, d) h = tt
    closed (err f, c) (err e, d) h = tt

-- If the extents are found, offset and length are not negative, the length is not zero, and the lengths
-- of the extents add up to it: laid end to end from the offset on, they cover exactly the area asked
-- for, whatever the server sends.
pub get_extents-CoversArea :
    (upgrade : Nbd (Unit {0})) (exportname : Text) (offset len : ℤ) (c d : Client)
    (es : List (ℕ × ℕ))
    → get_extents upgrade exportname offset len c ≡ (ok es, d)
    → CoversArea offset len es
unfolding get_extents
get_extents-CoversArea upgrade exportname offset len c d es h =
    let g = then-Gives (CoversArea offset len) (start upgrade false true false exportname) _ λ _.
      with_client-Gives (CoversArea offset len) (extents_of exportname offset len)
        (extents_of-Gives offset len exportname) in
    rw h at (g.at c)
