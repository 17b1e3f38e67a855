-- ===== src/Nbd/Extents/Stalls.antt =====
-- The loop of get_nbd_extents.py gets closer to the end with each reply that has any bytes.
use xen_api.Base.{
  ℕ, zero, suc, ◌-◌, ◌≤◌, ◌<◌, ◌≡◌, ◌≢◌, refl, List, [], ◌∷◌, ◌++◌, ◌⊎◌, inl, inr, min, ltb, arith,
  Bool-cases,
}
use xen_api.Base.Exec.{Result, ok, err, pure, continue, ◌>>=◌}
use xen_api.Nbd.Types.{Client, Error, Nbd, diverged}
use xen_api.Nbd.Socket.Laws.{NoEmpty}
use xen_api.Nbd.Results.{Ensures}
use xen_api.Nbd.Replies.{Chunk}
use xen_api.Nbd.Commands.{query_block_status}
use xen_api.Nbd.Progress.{Takes}
use xen_api.Nbd.Progress.Loops.{query-takes_some}
use xen_api.Nbd.Extents.{process_reply, assert_one, extents_loop, max_request_len}
use xen_api.Nbd.Extents.Moves.{NoBytes, OnOrEmpty, process-Progress, process-Moves}

-- From an offset and a state of the connection, the requests and replies lead to a reply without bytes.
pub data Stalls (id end : ℕ) : ℕ → Client → Type 0 where
  stalled :
      {offset : ℕ} {c : Client} (reply : Chunk) (d : Client)
      → query_block_status offset (min max_request_len (end - offset)) c ≡ (ok (reply ∷ []), d)
      → NoBytes reply
      → Stalls id end offset c
  later :
      {offset : ℕ} {c : Client} (reply : Chunk) (d : Client) (r : List (ℕ × ℕ) × ℕ) (d' : Client)
      → query_block_status offset (min max_request_len (end - offset)) c ≡ (ok (reply ∷ []), d)
      → process_reply id end reply offset d ≡ (ok r, d')
      → Stalls id end r.1 d'
      → Stalls id end offset c

module _ (fuel id end : ℕ) where
  -- The loop ends in some way, or the replies lead to one without bytes.
  EndsOrStalls : ℕ → Client → Type 0
  EndsOrStalls offset c =
      ((extents_loop fuel id end offset c).0 ≢ err diverged) ⊎ Stalls id end offset c

  rest_of : List (ℕ × ℕ) × ℕ → Nbd (List (ℕ × ℕ))
  rest_of r = extents_loop fuel id end r.1 >>= λ others. pure (r.0 ++ others)

  with_reply : ℕ → Chunk → Nbd (List (ℕ × ℕ))
  with_reply offset reply = process_reply id end reply offset >>= rest_of

  rest-ne :
      (es : List (ℕ × ℕ)) (q : Result Error (List (ℕ × ℕ)) × Client)
      → q.0 ≢ err diverged
      → (continue (λ others. pure {E = Error} {S = Client} (es ++ others)) q.0 q.1).0 ≢ err diverged
  rest-ne es (ok a, d) ne e = cc
  rest-ne es (err x, d) ne e = ne (cc e)

  module _ (offset : ℕ) (c : Client) (l : offset < end) (enough : end - offset ≤ fuel) where
    after_reply :
        (reply : Chunk) (d : Client) (q : Result Error (List (ℕ × ℕ) × ℕ) × Client)
        → query_block_status offset (min max_request_len (end - offset)) c ≡ (ok (reply ∷ []), d)
        → process_reply id end reply offset d ≡ q
        → Takes 0 d q
        → Ensures (OnOrEmpty offset reply) q
        → ((r : List (ℕ × ℕ) × ℕ) (d' : Client)
            → NoEmpty d'.incoming
            → end - r.1 < fuel
            → EndsOrStalls r.1 d')
        → ((continue rest_of q.0 q.1).0 ≢ err diverged) ⊎ Stalls id end offset c
    unfolding rest_of EndsOrStalls
    after_reply reply d (err x, d') h p t g ih = inl λ e. t.0 (cc e)
    after_reply reply d (ok r, d') h p t (inr empty) ih = inr (stalled reply d h empty)
    after_reply reply d (ok r, d') h p t (inl on) ih = elim (ih r d' t.0 (omega arith)) [
      | inl ne ↦ inl (rest-ne r.0 (extents_loop fuel id end r.1 d') ne)
      | inr s ↦ inr (later reply d r d' h p s)
    ]

    after_query :
        (q : Result Error (List Chunk) × Client)
        → query_block_status offset (min max_request_len (end - offset)) c ≡ q
        → Takes 20 c q
        → ((r : List (ℕ × ℕ) × ℕ) (d' : Client)
            → NoEmpty d'.incoming
            → end - r.1 < fuel
            → EndsOrStalls r.1 d')
        → ((continue (λ replies. assert_one replies >>= with_reply offset) q.0 q.1).0
            ≢ err diverged)
          ⊎ Stalls id end offset c
    unfolding with_reply
    after_query (err x, d) h t ih = inl λ e. t.0 (cc e)
    after_query (ok [], d) h t ih = inl λ e. cc
    after_query (ok (a ∷ b ∷ cs), d) h t ih = inl λ e. cc
    after_query (ok (reply ∷ []), d) h t ih =
        after_reply reply d (process_reply id end reply offset d) h refl
          ((process-Progress id end reply offset).from d t.0)
          ((process-Moves id end reply offset l).at d) ih

-- Where no segment that the server sends is empty, and with more rounds than there are bytes up to the
-- end: the loop over the extents comes to its end, with the extents or an error, unless its requests and
-- replies lead to a block status reply whose extents have no bytes at all.
pub extents_loop-Stalls :
    (fuel id end offset : ℕ) (c : Client)
    → NoEmpty c.incoming
    → end - offset < fuel
    → ((extents_loop fuel id end offset c).0 ≢ err diverged) ⊎ Stalls id end offset c
unfolding extents_loop EndsOrStalls with_reply rest_of
extents_loop-Stalls zero id end offset c h enough = absurd (omega arith)
extents_loop-Stalls (suc fuel) id end offset c h enough = elim (Bool-cases (ltb offset end)) [
  | inr done ↦ inl λ e. cc (rw done at e)
  | inl before ↦ rw before (
      after_query fuel id end offset c (ground arith) (omega arith)
        (query_block_status offset (min max_request_len (end - offset)) c) refl
        ((query-takes_some offset (min max_request_len (end - offset))).from c h)
        λ r d' h' l. extents_loop-Stalls fuel id end r.1 d' h' l)
]
