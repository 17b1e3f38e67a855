-- ===== src/Nbd/Progress/Loops.antt =====
-- The loops of python_nbd_client.py over replies take bytes of the stream with each round.
use xen_api.Base.{
  ℕ, zero, suc, ◌≡◌, ◌≢◌, Bool, none, some, List, [], ◌∷◌, length, true, false, if◌then◌else◌,
  arith, ltb, ◌^◌,
}
use xen_api.Base.Bytes.{Bytes}
use xen_api.Base.Utf8.{Text}
use xen_api.Base.Exec.{pure, ◌>>=◌}
use xen_api.Nbd.Types.{
  Error, Client, Nbd, nbd_cmd_block_status, sendall, pack, struct_error, diverged,
}
use xen_api.Nbd.Options.{send_option, parse_meta_context_reply}
use xen_api.Nbd.Handshake.{
  Info, pack_requests, info_loop, request_info, pack_queries, meta_context_loop,
  process_meta_context_option,
}
use xen_api.Nbd.Replies.{Chunk, is_final, parse_structured_reply_chunk, chunk_loop}
use xen_api.Nbd.Progress.{
  available, round-Takes, Progress-weaken, bind-Progress_last, Takes, Progress, Ends, pure-Progress,
  Progress-Ends, if-Ends, zero-Ends, bind-Progress, round-Ends, bind-Ends, bind-Ends_last,
  rounds-Progress,
}
use xen_api.Nbd.Socket.Laws.{NoEmpty}
use xen_api.Nbd.Progress.Replies.{
  rules, parse_option_reply-Progress, parse_info-Progress, parse_structured_reply_chunk-Progress,
  parse_meta_context_reply-Progress,
}
use xen_api.Nbd.Commands.{send_request_header, parse_structured_reply_chunks, query_block_status}
use xen_api.Base.Exec.{Result, ok, err}
use xen_api.Base.Bytes.{encode}

info_loop-Ends : (fuel : ℕ) (infos : List Info) → Ends fuel (info_loop fuel infos)
unfolding info_loop
info_loop-Ends zero infos = zero-Ends (info_loop zero infos)
info_loop-Ends (suc fuel) infos =
    let again : (more : List Info) → Ends fuel (info_loop fuel more) = info_loop-Ends fuel in
    search
      (
        rules,
        parse_option_reply-Progress,
        parse_info-Progress,
        round-Ends 19,
        bind-Ends,
        if-Ends,
        Progress-Ends,
        again,
      )
      depth 20

meta_context_loop-Ends : (fuel : ℕ) → Ends fuel (meta_context_loop fuel)
unfolding meta_context_loop
meta_context_loop-Ends zero = zero-Ends (meta_context_loop zero)
meta_context_loop-Ends (suc fuel) =
    round-Ends 19 fuel parse_meta_context_reply _ parse_meta_context_reply-Progress (elim [
      | none ↦ Progress-Ends fuel (pure []) (pure-Progress [])
      | some context ↦
          bind-Ends_last fuel (meta_context_loop fuel) (λ others. pure (context ∷ others))
            (meta_context_loop-Ends fuel) (λ others. pure-Progress (context ∷ others))
    ])

-- What follows the first chunk.
later_chunks : ℕ → Chunk → Nbd (List Chunk)
later_chunks fuel chunk =
    if is_final chunk.flags
    then pure (chunk ∷ [])
    else (chunk_loop fuel >>= λ others. pure (chunk ∷ others))

later_chunks-Ends :
    (fuel : ℕ) (chunk : Chunk) → Ends fuel (chunk_loop fuel) → Ends fuel (later_chunks fuel chunk)
unfolding later_chunks
later_chunks-Ends fuel chunk p =
    if-Ends fuel (is_final chunk.flags) _ _
      (Progress-Ends fuel (pure (chunk ∷ [])) (pure-Progress (chunk ∷ [])))
      (bind-Ends_last fuel (chunk_loop fuel) (λ others. pure (chunk ∷ others)) p
        (λ others. pure-Progress (chunk ∷ others)))

chunk_loop-Ends : (fuel : ℕ) → Ends fuel (chunk_loop fuel)
unfolding chunk_loop later_chunks
chunk_loop-Ends zero = zero-Ends (chunk_loop zero)
chunk_loop-Ends (suc fuel) =
    round-Ends 19 fuel parse_structured_reply_chunk (later_chunks fuel)
      parse_structured_reply_chunk-Progress
      λ chunk. later_chunks-Ends fuel chunk (chunk_loop-Ends fuel)

pub sendall-Progress : (bytes : Bytes) → Progress 0 (sendall bytes)
unfolding sendall
sendall-Progress bytes = record { from = λ c h. (h, omega arith) }

if_takes :
    (b : Bool) (w n : ℕ) (c : Client)
    → NoEmpty c.incoming
    → Takes 0 c (if b then (ok (encode w n), c) else (err struct_error, c))
if_takes true w n c h = (h, omega arith)
if_takes false w n c h = ((λ e. cc), h)

pub pack-Progress : (w n : ℕ) → Progress 0 (pack w n)
unfolding pack
pack-Progress w n = record { from = λ c h. if_takes (ltb n (256 ^ w)) w n c h }

pub send_option-Progress : (option : ℕ) (bytes : Bytes) → Progress 0 (send_option option bytes)
unfolding send_option
send_option-Progress option bytes = search (rules, sendall-Progress, pack-Progress) depth 20

requests-Progress : (rs : List ℕ) → Progress 0 (pack_requests rs)
unfolding pack_requests
requests-Progress [] = pure-Progress []
requests-Progress (r ∷ rs) =
    bind-Progress 0 (pack 2 r) _ (pack-Progress 2 r)
      λ first. bind-Progress 0 (pack_requests rs) _ (requests-Progress rs) λ others. pure-Progress _

queries-Progress : (qs : List Text) → Progress 0 (pack_queries qs)
unfolding pack_queries
queries-Progress [] = pure-Progress []
queries-Progress (q ∷ qs) =
    bind-Progress 0 (pack 4 (length q)) _ (pack-Progress 4 (length q))
      λ size. bind-Progress 0 (pack_queries qs) _ (queries-Progress qs) λ others. pure-Progress _

pub request_info-Progress :
    (export_name : Text) (info_requests : List ℕ)
    → Progress 0 (request_info export_name info_requests)
unfolding request_info
request_info-Progress export_name info_requests =
    search
      (
        rules, pack-Progress, requests-Progress, send_option-Progress, rounds-Progress,
        info_loop-Ends,
      )
      depth 20

pub meta_contexts-Progress :
    (option : ℕ) (export_name : Text) (queries : List Text)
    → Progress 0 (process_meta_context_option option export_name queries)
unfolding process_meta_context_option
meta_contexts-Progress option export_name queries =
    search
      (
        rules, pack-Progress, queries-Progress, send_option-Progress, rounds-Progress,
        meta_context_loop-Ends,
      )
      depth 20

chunks_take : Progress 20 parse_structured_reply_chunks
unfolding parse_structured_reply_chunks chunk_loop later_chunks
chunks_take = record {
  from = λ c h.
      round-Takes 20 (available c) parse_structured_reply_chunk (later_chunks (available c))
        parse_structured_reply_chunk-Progress
        (λ chunk. later_chunks-Ends (available c) chunk (chunk_loop-Ends (available c))) c h
        (omega arith);
}

pub chunks-Progress : Progress 0 parse_structured_reply_chunks
chunks-Progress = Progress-weaken 20 parse_structured_reply_chunks chunks_take

pub send_request_header-Progress :
    (ty offset len : ℕ) → Progress 0 (send_request_header ty offset len)
unfolding send_request_header
send_request_header-Progress ty offset len =
    search (rules, sendall-Progress, pack-Progress) depth 20

pub query-takes_some : (offset len : ℕ) → Progress 20 (query_block_status offset len)
unfolding query_block_status
query-takes_some offset len =
    bind-Progress_last 20 (send_request_header nbd_cmd_block_status offset len) _
      (send_request_header-Progress nbd_cmd_block_status offset len) (λ _. chunks_take)

module _ {A : Type 0} where
  outcome-ne : (c : Client) (r : Result Error A × Client) → Takes 0 c r → r.0 ≢ err diverged
  outcome-ne c (ok a, d) t e = cc
  outcome-ne c (err x, d) t e = t.0 ground_err
    where
      ground_err : x ≡ diverged
      ground_err = ground arith

  pub never : (m : Nbd A) (c : Client) → Progress 0 m → NoEmpty c.incoming → (m c).0 ≢ err diverged
  never m c p h = outcome-ne c (m c) (p.from c h)

module _ (c : Client) (h : NoEmpty c.incoming) where
  -- Whatever the server sends, in segments none of which is empty, the loop of `request_info` ends: one
  -- round for each byte that is there is enough.
  pub request_info-ends :
      (export_name : Text) (info_requests : List ℕ)
      → (request_info export_name info_requests c).0 ≢ err diverged
  request_info-ends export_name info_requests =
      never (request_info export_name info_requests) c
        (request_info-Progress export_name info_requests) h

  -- Whatever the server sends, in segments none of which is empty, the loop of
  -- `_process_meta_context_option` ends.
  pub meta_contexts-ends :
      (option : ℕ) (export_name : Text) (queries : List Text)
      → (process_meta_context_option option export_name queries c).0 ≢ err diverged
  meta_contexts-ends option export_name queries =
      never (process_meta_context_option option export_name queries) c
        (meta_contexts-Progress option export_name queries) h
