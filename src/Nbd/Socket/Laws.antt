-- ===== src/Nbd/Socket/Laws.antt =====
-- `_recvall` of python_nbd_client.py: what it returns depends on the bytes of the stream alone, and
-- not on how they are cut into segments.
use xen_api.Base.{
  ℕ, zero, suc, ◌+◌, ◌-◌, ◌≤◌, ◌<◌, ◌≡◌, refl, ap, ◌∙◌, List, [], ◌∷◌, ◌++◌, arith, length, take,
  drop, length-append, take-append, drop-append, length-take, length-drop, leb, if◌then◌else◌,
}
use xen_api.Base.Bytes.{Bytes}
use xen_api.Base.Exec.{Result, ok, err}
use xen_api.Nbd.Types.{Client, Error, eof}
use xen_api.Nbd.Socket.{flat, put_back, prepend, recv_loop, recvall}

-- No segment is empty: `recv` returns no byte only at the end of the stream.
abbrev pub NoEmpty : List Bytes → Type 0
NoEmpty [] = Unit
NoEmpty (seg ∷ segs) = (0 < length seg) × NoEmpty segs

flat-put_back : (bs : Bytes) (segs : List Bytes) → flat (put_back bs segs) ≡ bs ++ flat segs
unfolding put_back
flat-put_back [] segs = refl
flat-put_back (b ∷ bs) segs = refl

put_back-NoEmpty : (bs : Bytes) (segs : List Bytes) → NoEmpty segs → NoEmpty (put_back bs segs)
unfolding put_back
put_back-NoEmpty [] segs h = h
put_back-NoEmpty (b ∷ bs) segs h = (omega arith, h)

-- Reading `k` bytes of two pieces, the first piece first.
take_pieces :
    (k j : ℕ) (xs ys : Bytes)
    → j ≡ k - length (take k xs)
    → take k xs ++ take j (drop k xs ++ ys) ≡ take k (xs ++ ys)
take_pieces zero j xs ys e = let e' : j ≡ zero = omega arith in rw e'
take_pieces (suc k) j [] ys e = let e' : j ≡ suc k = omega arith in rw e'
take_pieces (suc k) j (x ∷ xs) ys e = ap (λ t. x ∷ t) (take_pieces k j xs ys (omega arith))

drop_pieces :
    (k j : ℕ) (xs ys : Bytes)
    → j ≡ k - length (take k xs)
    → drop j (drop k xs ++ ys) ≡ drop k (xs ++ ys)
drop_pieces zero j xs ys e = let e' : j ≡ zero = omega arith in rw e'
drop_pieces (suc k) j [] ys e = let e' : j ≡ suc k = omega arith in rw e'
drop_pieces (suc k) j (x ∷ xs) ys e = drop_pieces k j xs ys (omega arith)

-- What a call for `n` bytes of `segs` has done.
record Reads (n : ℕ) (segs : List Bytes) (r : Result Error Bytes × List Bytes) : Type 0 where
  got : r.0 ≡ (if leb n (length (flat segs)) then ok (take n (flat segs)) else err eof)
  left : n ≤ length (flat segs) → flat r.1 ≡ drop n (flat segs)
  no_empty : NoEmpty r.1

module _ (k j : ℕ) (seg : Bytes) (segs : List Bytes) (e : j ≡ k - length (take k seg)) where
  rest_flat : flat (put_back (drop k seg) segs) ≡ drop k seg ++ flat segs
  rest_flat = flat-put_back (drop k seg) segs

  rest_length : length (flat (put_back (drop k seg) segs)) ≡ length seg - k + length (flat segs)
  rest_length =
      rw rest_flat (omega (arith, length-append (drop k seg) (flat segs), length-drop k seg))

  whole_length : length (seg ++ flat segs) ≡ length seg + length (flat segs)
  whole_length = length-append seg (flat segs)

  fits_alike :
      leb j (length (flat (put_back (drop k seg) segs))) ≡ leb k (length (seg ++ flat segs))
  fits_alike = ground (arith, rest_length, whole_length, length-take k seg)

  prepend-Reads :
      (r : Result Error Bytes × List Bytes)
      → Reads j (put_back (drop k seg) segs) r
      → Reads k (seg ∷ segs) (prepend (take k seg) r)
  prepend-Reads (ok bs, segs') h = record {
    got =
        ground (
          arith,
          h.got,
          fits_alike,
          ap (λ t. take j t) rest_flat,
          take_pieces k j seg (flat segs) e,
        );
    left = λ p.
        h.left (omega (arith, rest_length, whole_length, length-take k seg))
        ∙ ap (λ t. drop j t) rest_flat
        ∙ drop_pieces k j seg (flat segs) e;
    no_empty = h.no_empty;
  }
  prepend-Reads (err x, segs') h = record {
    got = ground (arith, h.got, fits_alike);
    left = λ p.
        h.left (omega (arith, rest_length, whole_length, length-take k seg))
        ∙ ap (λ t. drop j t) rest_flat
        ∙ drop_pieces k j seg (flat segs) e;
    no_empty = h.no_empty;
  }

recv_loop_step :
    (fuel n b : ℕ) (bs : Bytes) (segs : List Bytes)
    → recv_loop (suc fuel) (suc n) ((b ∷ bs) ∷ segs)
      ≡ prepend
          (b ∷ take n bs)
          (recv_loop fuel (suc n - length (b ∷ take n bs)) (put_back (drop n bs) segs))
unfolding recv_loop
recv_loop_step fuel n b bs segs = ground arith

recv_loop-Reads :
    (fuel n : ℕ) (segs : List Bytes)
    → n ≤ fuel
    → NoEmpty segs
    → Reads n segs (recv_loop fuel n segs)
unfolding recv_loop
recv_loop-Reads zero zero segs p h = record { got = ground arith; left = λ _. refl; no_empty = h }
recv_loop-Reads zero (suc n) segs p h = absurd (omega arith)
recv_loop-Reads (suc fuel) zero segs p h = record {
  got = ground arith;
  left = λ _. refl;
  no_empty = h;
}
recv_loop-Reads (suc fuel) (suc n) [] p h = record {
  got = ground arith;
  left = λ q. absurd (omega arith);
  no_empty = ground arith;
}
recv_loop-Reads (suc fuel) (suc n) ([] ∷ segs) p h = absurd (omega (arith, h.0))
recv_loop-Reads (suc fuel) (suc n) ((b ∷ bs) ∷ segs) p h = rw (recv_loop_step fuel n b bs segs) (
    prepend-Reads (suc n) (suc n - length (b ∷ take n bs)) (b ∷ bs) segs refl
      (recv_loop fuel (suc n - length (b ∷ take n bs)) (put_back (drop n bs) segs))
      (recv_loop-Reads fuel (suc n - length (b ∷ take n bs)) (put_back (drop n bs) segs)
        (omega arith) (put_back-NoEmpty (drop n bs) segs h.1)))

-- The socket after `n` bytes were asked for.
unfoldable pub skip : ℕ → Client → Client
skip n c = record c { incoming = (recv_loop n n c.incoming).1 }

module _ (n : ℕ) (c : Client) (h : NoEmpty c.incoming) where
  -- `_recvall(n)` returns the first `n` bytes of the stream, however they are cut into segments, and
  -- raises NBDEOFError exactly when the stream has fewer.
  pub recvall_lem : recvall n c ≡ (
    (if leb n (length (flat c.incoming)) then ok (take n (flat c.incoming)) else err eof),
    skip n c,
  )
  unfolding recvall skip
  recvall_lem = λ i. ((recv_loop-Reads n n c.incoming (omega arith) h).got i, skip n c)

  pub flat-skip : n ≤ length (flat c.incoming) → flat (skip n c).incoming ≡ drop n (flat c.incoming)
  unfolding skip
  flat-skip = (recv_loop-Reads n n c.incoming (omega arith) h).left

  pub skip-NoEmpty : NoEmpty (skip n c).incoming
  unfolding skip
  skip-NoEmpty = (recv_loop-Reads n n c.incoming (omega arith) h).no_empty

-- Reading a piece that stands at the front of the stream.
pub recvall-front :
    (n : ℕ) (c : Client) (bs rest : Bytes)
    → NoEmpty c.incoming
    → length bs ≡ n
    → flat c.incoming ≡ bs ++ rest
    → (recvall n c ≡ (ok bs, skip n c))
      × (flat (skip n c).incoming ≡ rest)
      × NoEmpty (skip n c).incoming
recvall-front n c bs rest h l e = (
  ground (arith, recvall_lem n c h, front, whole, l),
  flat-skip n c h (omega (arith, whole)) ∙ back,
  skip-NoEmpty n c h,
)
  where
    whole : length (flat c.incoming) ≡ length bs + length rest
    whole = ap length e ∙ length-append bs rest

    front : take n (flat c.incoming) ≡ bs
    front = rw (e, ← l) (take-append bs rest)

    back : drop n (flat c.incoming) ≡ rest
    back = rw (e, ← l) (drop-append bs rest)
