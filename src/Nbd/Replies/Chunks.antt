-- ===== src/Nbd/Replies/Chunks.antt =====
-- The structured replies of python_nbd_client.py.
use xen_api.Base.{
  ℕ, zero, suc, ◌<◌, ◌^◌, ◌/◌, ◌%◌, ◌≡◌, refl, sym, ap, ◌∙◌, true, false, some, List, [], ◌∷◌, ◌++◌,
  if◌then◌else◌, Bool-cases, inl, inr,
}
use xen_api.Base.Bytes.{Bytes, encode, decode, decode-encode}
use xen_api.Base.Exec.{Result, ok, err, continue, pure, ◌>>=◌}
use xen_api.Nbd.Types.{Client, Error, Client}
use xen_api.Nbd.Commands.{parse_structured_reply_chunks}
use xen_api.Nbd.Handshake.{rounds}
use xen_api.Nbd.Replies.{
  parse_descriptors, Chunk, is_final, parse_structured_reply_chunk, chunk_loop,
}

-- The extents of a block status reply as a server packs them.
abbrev pub pack_descriptors : List (ℕ × ℕ) → Bytes
pack_descriptors [] = []
pack_descriptors ((len, status) ∷ ds) = encode 4 len ++ (encode 4 status ++ pack_descriptors ds)

abbrev pub Fit : List (ℕ × ℕ) → Type 0
Fit [] = Unit
Fit ((len, status) ∷ ds) = (len < 2 ^ 32) × (status < 2 ^ 32) × Fit ds

-- Four bytes as a list of four.
four : (n : ℕ) → (a : ℕ) × (b : ℕ) × (c : ℕ) × (d : ℕ) × (encode 4 n ≡ a ∷ b ∷ c ∷ d ∷ [])
unfolding encode
four n = (n / 256 / 256 / 256 % 256, n / 256 / 256 % 256, n / 256 % 256, n % 256, refl)

one_descriptor :
    (len status : ℕ) (rest : Bytes) (ds : List (ℕ × ℕ))
    → len < 2 ^ 32
    → status < 2 ^ 32
    → parse_descriptors rest ≡ some ds
    → parse_descriptors (encode 4 len ++ (encode 4 status ++ rest)) ≡ some ((len, status) ∷ ds)
one_descriptor len status rest ds hl hs e =
    let (a, b, c, d, p) = four len in
    let (a', b', c', d', q) = four status in
    let l : decode (a ∷ b ∷ c ∷ d ∷ []) ≡ len = ap decode (sym p) ∙ decode-encode 4 len hl in
    let s : decode (a' ∷ b' ∷ c' ∷ d' ∷ []) ≡ status =
      ap decode (sym q) ∙ decode-encode 4 status hs in
    rw (p, q) (unfold parse_descriptors in rw (e, l, s) refl)

-- Every list of extents that fits its fields is parsed back from its bytes.
pub parse_descriptors-pack :
    (ds : List (ℕ × ℕ)) → Fit ds → parse_descriptors (pack_descriptors ds) ≡ some ds
unfolding parse_descriptors
parse_descriptors-pack [] h = refl
parse_descriptors-pack ((len, status) ∷ ds) (hl, hs, h) =
    one_descriptor len status (pack_descriptors ds) ds hl hs (parse_descriptors-pack ds h)

-- The last chunk and no other has the flag NBD_REPLY_FLAG_DONE.
abbrev pub EndsFinal : List Chunk → Type 0
EndsFinal [] = ⊥
EndsFinal (c ∷ []) = is_final c.flags ≡ true
EndsFinal (c ∷ d ∷ cs) = (is_final c.flags ≡ false) × EndsFinal (d ∷ cs)

abbrev pub Shaped : Result Error (List Chunk) × Client → Type 0
Shaped (ok cs, _) = EndsFinal cs
Shaped (err _, _) = Unit

before :
    (c : Chunk) (r : Result Error (List Chunk) × Client)
    → is_final c.flags ≡ false
    → Shaped r
    → Shaped (continue (λ others. pure (c ∷ others)) r.0 r.1)
before c (ok [], s) f h = absurd h
before c (ok (d ∷ cs), s) f h = (f, h)
before c (err e, s) f h = tt

module _ (fuel : ℕ) (ih : (c : Client) → Shaped (chunk_loop fuel c)) where
  with_chunk :
      (r : Result Error Chunk × Client)
      → Shaped (
          continue
            (λ chunk.
              if is_final chunk.flags
              then pure (chunk ∷ [])
              else (chunk_loop fuel >>= λ others. pure (chunk ∷ others)))
            r.0
            r.1)
  with_chunk (ok c, s) = elim (Bool-cases (is_final c.flags)) [
    | inl last ↦ rw last last
    | inr more ↦ rw more (before c (chunk_loop fuel s) more (ih s))
  ]
  with_chunk (err e, s) = tt

shapes : (fuel : ℕ) (c : Client) → Shaped (chunk_loop fuel c)
unfolding chunk_loop
shapes zero c = tt
shapes (suc fuel) c = with_chunk fuel (shapes fuel) (parse_structured_reply_chunk c)

-- The chunks of an answer that is read without an error end with the one that has the flag
-- NBD_REPLY_FLAG_DONE, and no chunk before it has the flag: nothing behind the answer is taken for a
-- part of it.
pub chunks-EndsFinal :
    (c d : Client) (chunks : List Chunk)
    → parse_structured_reply_chunks c ≡ (ok chunks, d)
    → EndsFinal chunks
unfolding parse_structured_reply_chunks
chunks-EndsFinal c d chunks h = rw h at (shapes (rounds c) c)
