-- ===== src/Nbd/Progress/Unfinished.antt =====
-- `_parse_structured_reply_chunks` of python_nbd_client.py goes on as long as the server does.
use xen_api.Base.{
  ℕ, zero, suc, ◌%◌, ◌≡◌, ◌↔◌, refl, not, ◌==◌, false, List, [], ◌∷◌, if◌then◌else◌, Bool-cases,
  inl, inr, arith,
}
use Prim.Native.Nat.{bit_and}
use xen_api.Base.Bits.{bit_and-pow}
use xen_api.Base.Exec.{Result, ok, err, continue, pure, ◌>>=◌}
use xen_api.Nbd.Types.{Error, Client, Nbd, diverged}
use xen_api.Nbd.Socket.Laws.{NoEmpty}
use xen_api.Nbd.Replies.{Chunk, is_final, parse_structured_reply_chunk, chunk_loop}
use xen_api.Nbd.Progress.{Takes}
use xen_api.Nbd.Progress.Replies.{parse_structured_reply_chunk-Progress}

-- The server sends so many chunks one after the other, none of them with the lowest bit of its flags,
-- NBD_REPLY_FLAG_DONE.
abbrev pub Unfinished : ℕ → Client → Type 0
Unfinished zero c = Unit
Unfinished (suc n) c =
    (chunk : Chunk) × (d : Client) × (parse_structured_reply_chunk c ≡ (ok chunk, d))
    × (chunk.flags % 2 ≡ 0)
    × Unfinished n d

module _ {A B : Type 0} (f : A → B) where
  bind_diverged :
      (r : Result Error A × Client)
      → ((continue (λ a. pure {E = Error} {S = Client} (f a)) r.0 r.1).0 ≡ err diverged)
        ↔ (r.0 ≡ err diverged)
  bind_diverged (ok a, d) = (λ e. absurd (cc e), λ e. absurd (cc e))
  bind_diverged (err x, d) = (λ e. cc, λ e. cc)

-- The flag is the lowest bit.
is_final_bit : (flags : ℕ) → is_final flags ≡ not (flags % 2 == 0)
unfolding is_final
is_final_bit flags =
    let e : bit_and flags 1 ≡ flags % 2 = omega (arith, bit_and-pow 0 flags) in rw e refl

final-odd : (flags : ℕ) → is_final flags ≡ false → flags % 2 ≡ 0
final-odd flags e = let e' = rw (is_final_bit flags) at e in ground arith

odd-final : (flags : ℕ) → flags % 2 ≡ 0 → is_final flags ≡ false
odd-final flags e = rw (is_final_bit flags, e) refl

module _ (fuel : ℕ) where
  later_chunks : Chunk → Nbd (List Chunk)
  later_chunks chunk =
      if is_final chunk.flags
      then pure (chunk ∷ [])
      else (chunk_loop fuel >>= λ others. pure (chunk ∷ others))

  goes_on :
      (c : Client) (r : Result Error Chunk × Client)
      → parse_structured_reply_chunk c ≡ r
      → Takes 20 c r
      → ((d : Client)
          → NoEmpty d.incoming
          → (chunk_loop fuel d).0 ≡ err diverged
          → Unfinished fuel d)
      → (continue later_chunks r.0 r.1).0 ≡ err diverged
      → Unfinished (suc fuel) c
  unfolding later_chunks
  goes_on c (err x, d) p t ih e = absurd (t.0 (ground arith))
  goes_on c (ok chunk, d) p t ih e = elim (Bool-cases (is_final chunk.flags)) [
    | inl last ↦ absurd (cc (rw last at e))
    | inr more ↦ (
      chunk,
      d,
      p,
      final-odd chunk.flags more,
      ih d t.0 ((bind_diverged (λ others. chunk ∷ others) (chunk_loop fuel d)).0 (rw more at e)),
    )
  ]

diverged-Unfinished :
    (fuel : ℕ) (c : Client)
    → NoEmpty c.incoming
    → (chunk_loop fuel c).0 ≡ err diverged
    → Unfinished fuel c
unfolding chunk_loop later_chunks
diverged-Unfinished zero c h e = tt
diverged-Unfinished (suc fuel) c h e =
    goes_on fuel c (parse_structured_reply_chunk c) refl
      (parse_structured_reply_chunk-Progress.from c h) (diverged-Unfinished fuel) e

Unfinished-diverged :
    (fuel : ℕ) (c : Client) → Unfinished fuel c → (chunk_loop fuel c).0 ≡ err diverged
unfolding chunk_loop
Unfinished-diverged zero c u = refl
Unfinished-diverged (suc fuel) c (chunk, d, p, more, u) =
    rw (p, odd-final chunk.flags more)
      ((bind_diverged (λ others. chunk ∷ others) (chunk_loop fuel d)).1
        (Unfinished-diverged fuel d u))

-- For any number of rounds, and where no segment that the server sends is empty: the loop over the
-- chunks of an answer is not at its end after so many rounds if and only if the server has sent so many
-- chunks in a row, each of them read without an error and none with the flag NBD_REPLY_FLAG_DONE.
pub chunk_loop-Unfinished :
    (fuel : ℕ) (c : Client)
    → NoEmpty c.incoming
    → ((chunk_loop fuel c).0 ≡ err diverged) ↔ Unfinished fuel c
chunk_loop-Unfinished fuel c h = (diverged-Unfinished fuel c h, Unfinished-diverged fuel c)
