-- ===== src/Tests/Extents.antt =====
-- A whole run of get_nbd_extents.py.
use mathlib.Core.Logic.{◌≢◌}
use xen_api.Base.{refl, ◌⊎◌, ℕ, List, [], ◌∷◌, ◌++◌, replicate, arith}
use xen_api.Base.Bytes.{codes, encode, decode, bytes_eq}
use xen_api.Base.Int.{pos}
use xen_api.Base.Utf8.{utf8_encode, utf8_decode}
use xen_api.Base.Exec.{err, pure}
use xen_api.Nbd.Types.{
  Client, option_reply_magic, nbd_structured_reply_magic, diverged, sendall, pack,
}
use xen_api.Nbd.Socket.{put_back, recv_into, recv_loop, recvall}
use xen_api.Nbd.Options.{
  field, send_option, parse_option_reply, parse_option_reply_ack, parse_meta_context_reply,
  negotiate_structured_reply,
}
use xen_api.Nbd.Options.Replies.{option_header}
use xen_api.Nbd.Handshake.{
  pack_queries, meta_context_loop, process_meta_context_option, set_meta_contexts, connect,
  fixed_new_style_handshake, start, new_client,
}
use xen_api.Nbd.Replies.{
  parse_descriptors, parse_structured_reply_chunk, check_handle, chunk_loop, parse_body,
  handle_block_status_reply, is_error_chunk, is_final,
}
use xen_api.Nbd.Replies.Chunks.{pack_descriptors}
use xen_api.Nbd.Replies.ErrorOffset.{chunk_header}
use xen_api.Nbd.Commands.{
  close, disconnect, query_block_status, parse_structured_reply_chunks, send_request_header,
  get_size,
}
use xen_api.Nbd.Extents.{
  take_extents, process_reply, extents_loop, extents_of, with_client, get_extents,
}
use xen_api.Nbd.Extents.Cover.{CoversArea, get_extents-CoversArea}
use xen_api.Nbd.Extents.Stalls.{Stalls, extents_loop-Stalls}

-- An export of 1536 bytes, and the answer to one block status request.
abbrev server : Client
server = new_client (
    (codes "NBDMAGICIHAVEOPT" ++ 0 ∷ 1 ∷ [])
    ∷ option_header option_reply_magic 8 1 0
    ∷ (option_header option_reply_magic 10 4 19 ++ (encode 4 1 ++ codes "base:allocation"))
    ∷ option_header option_reply_magic 10 1 0
    ∷ (encode 8 1536 ++ (encode 2 1 ++ replicate 124 0))
    ∷ (chunk_header nbd_structured_reply_magic 1 5 1 20
        ++ (encode 4 1 ++ pack_descriptors ((512, 0) ∷ (4096, 3) ∷ [])))
    ∷ [])

-- The last extent reaches beyond the area, and is cut.
abbrev extents : List (ℕ × ℕ)
extents = (512, 0) ∷ (488, 3) ∷ []

get_extents_example : CoversArea (pos 512) (pos 1000) extents
unfolding get_extents start fixed_new_style_handshake with_client extents_of
    negotiate_structured_reply send_option parse_option_reply_ack parse_option_reply
    set_meta_contexts process_meta_context_option pack_queries meta_context_loop
    parse_meta_context_reply connect get_size extents_loop query_block_status send_request_header
    parse_structured_reply_chunks chunk_loop parse_structured_reply_chunk check_handle parse_body
    handle_block_status_reply parse_descriptors is_final is_error_chunk process_reply take_extents
    close disconnect recvall recv_loop recv_into put_back sendall pack field decode encode
    utf8_encode utf8_decode bytes_eq
get_extents_example =
    get_extents-CoversArea (pure tt) (codes "disk") (pos 512) (pos 1000) server
      (get_extents (pure tt) (codes "disk") (pos 512) (pos 1000) server).1 extents refl

-- The answer to the request alone.
abbrev answered : Client
answered = new_client (
    (chunk_header nbd_structured_reply_magic 1 5 1 20
      ++ (encode 4 1 ++ pack_descriptors ((512, 0) ∷ (4096, 3) ∷ [])))
    ∷ [])

extents_loop_example :
    ((extents_loop 1001 1 1512 512 answered).0 ≢ err diverged) ⊎ Stalls 1 1512 512 answered
unfolding encode
extents_loop_example = extents_loop-Stalls 1001 1 1512 512 answered (omega arith, tt) (omega arith)
