-- ===== src/Tests/Nbd.antt =====
-- The theorems on python_nbd_client.py at concrete replies.
use mathlib.Core.Logic.{◌↔◌}
use xen_api.Base.{◌≡◌, refl, true, false, some, none, List, [], ◌∷◌, ◌++◌, replicate, arith}
use xen_api.Base.Bytes.{Bytes, encode, decode}
use xen_api.Base.Utf8.{utf8_decode}
use xen_api.Base.Exec.{ok, err}
use xen_api.Nbd.Types.{
  Client, option_reply_magic, nbd_simple_reply_magic, nbd_structured_reply_magic, nbd_cmd_read,
  nbd_cmd_write, nbd_opt_info, diverged, transmission, sendall, pack,
}
use xen_api.Nbd.Socket.{flat, put_back, recv_into, recv_loop, recvall}
use xen_api.Nbd.Socket.Laws.{skip, recvall_lem}
use xen_api.Nbd.Options.{field, parse_option_reply}
use xen_api.Nbd.Options.Replies.{option_header, parse_option_reply-verdict}
use xen_api.Nbd.Handshake.{new_client}
use xen_api.Nbd.Replies.{
  Chunk, parse_descriptors, parse_simple_reply, parse_structured_reply_chunk, no_data, offset_hole,
  error_chunk, check_handle, chunk_loop, parse_body, handle_hole_reply,
  handle_structured_reply_error, error_offset, is_error_chunk, is_final,
}
use xen_api.Nbd.Replies.Chunks.{
  pack_descriptors, EndsFinal, parse_descriptors-pack, chunks-EndsFinal,
}
use xen_api.Nbd.Replies.ErrorOffset.{NoErrorOffset, chunk_header, error_offset_lost}
use xen_api.Nbd.Results.{Ensures}
use xen_api.Nbd.Commands.{
  read, write, close, flush, need_flush, disconnect, bytes_read, parse_structured_reply_chunks,
  send_request_header,
}
use xen_api.Nbd.Commands.Requests.{simple_header, request_header, parse_simple_reply_verdict}
use xen_api.Nbd.Commands.Laws.{write_lem, read_lem}
use xen_api.Nbd.Commands.Closing.{close_idempotent}
use xen_api.Nbd.Progress.Unfinished.{Unfinished, chunk_loop-Unfinished}

-- Five bytes in two segments.
abbrev two_segments : Client
two_segments = new_client ((1 ∷ 2 ∷ 3 ∷ []) ∷ (4 ∷ 5 ∷ []) ∷ [])

recvall_example : recvall 4 two_segments ≡ (ok (1 ∷ 2 ∷ 3 ∷ 4 ∷ []), skip 4 two_segments)
recvall_example = recvall_lem 4 two_segments (omega arith, (omega arith, tt))

abbrev info_reply : Client
info_reply = record (new_client ((option_header option_reply_magic 6 3 2 ++ 7 ∷ 8 ∷ 9 ∷ []) ∷ [])) {
  last_sent_option = some nbd_opt_info;
}

parse_option_reply_example : (parse_option_reply info_reply).0 ≡ ok (3, 7 ∷ 8 ∷ [])
unfolding encode
parse_option_reply_example =
    parse_option_reply-verdict option_reply_magic 6 3 2 (omega arith) (omega arith) (omega arith)
      (omega arith) (7 ∷ 8 ∷ []) (9 ∷ []) info_reply (omega arith, tt) refl refl

abbrev failed_reply : Client
failed_reply = record (new_client ((simple_header nbd_simple_reply_magic 5 7 ++ 1 ∷ 2 ∷ []) ∷ [])) {
  handle = 7;
}

parse_simple_reply_example :
    ((parse_simple_reply 2 failed_reply).0 ≡ err (transmission 5))
    × ((parse_simple_reply 2 failed_reply).1
        ≡ record failed_reply { incoming = (parse_simple_reply 2 failed_reply).1.incoming })
unfolding encode
parse_simple_reply_example =
    parse_simple_reply_verdict nbd_simple_reply_magic 5 7 (omega arith) (omega arith) (omega arith)
      (1 ∷ 2 ∷ []) [] failed_reply (omega arith, tt) refl

abbrev block : Bytes
block = replicate 512 1

abbrev writing : Client
writing = record (new_client ((simple_header nbd_simple_reply_magic 0 7 ++ 9 ∷ []) ∷ [])) {
  handle = 6;
}

write_example :
    ((write block 1024 writing).0 ≡ ok 512)
    × ((write block 1024 writing).1.sent ≡ ([] ++ request_header nbd_cmd_write 7 1024 512) ++ block)
    × ((write block 1024 writing).1.flushed ≡ false)
    × ((write block 1024 writing).1.handle ≡ 7)
    × (flat (write block 1024 writing).1.incoming ≡ 9 ∷ [])
unfolding encode
write_example =
    write_lem block (9 ∷ []) 1024 writing (omega arith, tt) refl refl refl (omega arith)
      (omega arith) (omega arith)

abbrev reading : Client
reading =
    record (new_client ((simple_header nbd_simple_reply_magic 0 7 ++ block) ∷ (9 ∷ []) ∷ [])) {
      handle = 6;
    }

read_example :
    ((read 1024 512 reading).0 ≡ ok (bytes_read block))
    × ((read 1024 512 reading).1.sent ≡ [] ++ request_header nbd_cmd_read 7 1024 512)
    × (flat (read 1024 512 reading).1.incoming ≡ 9 ∷ [])
unfolding encode
read_example =
    read_lem block (9 ∷ []) 1024 reading (omega arith, (omega arith, tt)) refl refl refl refl
      (omega arith) (omega arith) (omega arith)

-- A hole of 512 bytes, the last chunk, and a byte of something else.
abbrev chunks_sent : Bytes
chunks_sent =
    ((chunk_header nbd_structured_reply_magic 0 2 0 12 ++ (encode 8 1024 ++ encode 4 512))
      ++ chunk_header nbd_structured_reply_magic 1 0 0 0)
    ++ 9 ∷ []

abbrev structured : Client
structured = record (new_client (chunks_sent ∷ [])) { structured_reply = true }

abbrev chunks_got : List Chunk
chunks_got =
    record { flags = 0; reply_type = 2; data_length = 12; body = offset_hole 1024 512 }
    ∷ record { flags = 1; reply_type = 0; data_length = 0; body = no_data }
    ∷ []

chunks_example : EndsFinal chunks_got
unfolding parse_structured_reply_chunks chunk_loop parse_structured_reply_chunk recvall recv_loop
    recv_into put_back check_handle parse_body handle_hole_reply field decode encode is_final
chunks_example =
    chunks-EndsFinal structured (record structured { incoming = (9 ∷ []) ∷ [] }) chunks_got refl

chunk_loop_example : ((chunk_loop 1 structured).0 ≡ err diverged) ↔ Unfinished 1 structured
unfolding encode
chunk_loop_example = chunk_loop-Unfinished 1 structured (omega arith, tt)

descriptors_example :
    parse_descriptors (pack_descriptors ((65536, 0) ∷ (4096, 3) ∷ []))
    ≡ some ((65536, 0) ∷ (4096, 3) ∷ [])
descriptors_example =
    parse_descriptors-pack ((65536, 0) ∷ (4096, 3) ∷ [])
      (omega arith, omega arith, (omega arith, omega arith, tt))

-- An error with its offset, 4096.
abbrev error_sent : Bytes
error_sent = encode 4 5 ++ (encode 2 0 ++ encode 8 4096)

abbrev with_error : Client
with_error = new_client ((chunk_header nbd_structured_reply_magic 1 0x8002 0 14 ++ error_sent) ∷ [])

error_offset_example :
    Ensures (λ (k : Chunk). NoErrorOffset k.body) (parse_structured_reply_chunk with_error)
unfolding encode
error_offset_example =
    error_offset_lost nbd_structured_reply_magic 1 0x8002 0 14 (omega arith) error_sent with_error
      (omega arith, tt) refl

-- The chunk is accepted, and its offset is not there.
error_accepted :
    (parse_structured_reply_chunk with_error).0
    ≡ ok (record { flags = 1; reply_type = 0x8002; data_length = 14; body = error_chunk 5 [] none })
unfolding parse_structured_reply_chunk recvall recv_loop recv_into put_back check_handle parse_body
    handle_structured_reply_error error_offset is_error_chunk field decode encode utf8_decode
error_accepted = refl

-- In the transmission phase, with a write that is not flushed, to a server that wants flushes.
abbrev unflushed : Client
unflushed = record (new_client (simple_header nbd_simple_reply_magic 0 1 ∷ [])) {
  transmission_phase = true;
  flushed = false;
  transmission_flags = some 5;
}

close_example :
    ((close unflushed).1.closed ≡ true) × (close (close unflushed).1 ≡ (ok tt, (close unflushed).1))
unfolding close flush need_flush disconnect send_request_header sendall pack parse_simple_reply
    recvall recv_loop recv_into put_back check_handle field decode encode
close_example = close_idempotent unflushed refl
