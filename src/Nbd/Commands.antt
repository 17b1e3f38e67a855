-- ===== src/Nbd/Commands.antt =====
-- ocaml/vhd-tool/scripts/python_nbd_client.py: the requests of the transmission phase, and `close`.
pub mod Requests
pub mod Closing
pub mod Laws
use xen_api.Base.{
  ℕ, ◌+◌, ◌%◌, Bool, true, false, List, [], ◌++◌, ◌==◌, ◌&&◌, not, if◌then◌else◌, length,
}
use xen_api.Base.Bytes.{Bytes}
use xen_api.Base.Exec.{pure, gets, guard, or_raise, modify, when, ◌>>=◌, ◌>>◌}
use xen_api.Nbd.Types.{
  nbd_cmd_read, nbd_cmd_write, nbd_cmd_disc, nbd_cmd_flush, nbd_cmd_block_status,
  nbd_flag_send_flush, nbd_opt_abort, nbd_request_magic, Nbd, flag_set, sendall, pack, value_error,
  attribute_error,
}
use xen_api.Nbd.Options.{send_option}
use xen_api.Nbd.Handshake.{rounds}
use xen_api.Nbd.Replies.{Chunk, parse_simple_reply, chunk_loop}

unfoldable pub send_request_header : ℕ → ℕ → ℕ → Nbd (Unit {0})
send_request_header request_type offset len = do
  modify (λ s. record s { handle = s.handle + 1 })
  handle ← gets (λ s. s.handle)
  magic ← pack 4 nbd_request_magic
  command_flags ← pack 2 0
  ty ← pack 2 request_type
  packed_handle ← pack 8 handle
  packed_offset ← pack 8 offset
  packed_length ← pack 4 len
  sendall (magic ++ (command_flags ++ (ty ++ (packed_handle ++ (packed_offset ++ packed_length)))))

unfoldable pub check_alignment : ℕ → Nbd (Unit {0})
check_alignment value = guard (value % 512 == 0) value_error

unfoldable pub write : Bytes → ℕ → Nbd ℕ
write bytes offset = do
  check_alignment offset
  check_alignment (length bytes)
  modify (λ s. record s { flushed = false })
  send_request_header nbd_cmd_write offset (length bytes)
  sendall bytes
  parse_simple_reply 0
  pure (length bytes)

-- `read` returns the bytes, or the chunks where structured replies were negotiated; the caller must
-- run the generator to its end before any other call, and the model does so at once.
pub data ReadReply : Type 0 where
  bytes_read : Bytes → ReadReply
  chunks_read : List Chunk → ReadReply

unfoldable pub parse_structured_reply_chunks : Nbd (List Chunk)
parse_structured_reply_chunks = do fuel ← gets rounds; chunk_loop fuel

unfoldable pub read : ℕ → ℕ → Nbd ReadReply
read offset len = do
  check_alignment offset
  check_alignment len
  send_request_header nbd_cmd_read offset len
  structured ← gets (λ s. s.structured_reply)
  if structured
      then (do chunks ← parse_structured_reply_chunks; pure (chunks_read chunks))
      else (do bytes ← parse_simple_reply len; pure (bytes_read bytes))

unfoldable pub need_flush : Nbd Bool
need_flush = do
  flags ← gets (λ s. s.transmission_flags)
  known ← or_raise flags attribute_error
  pure (flag_set known nbd_flag_send_flush)

unfoldable pub flush : Nbd Bool
flush = do
  needed ← need_flush
  if needed
      then (do
        send_request_header nbd_cmd_flush 0 0
        parse_simple_reply 0
        modify (λ s. record s { flushed = true })
        pure true)
      else (do modify (λ s. record s { flushed = true }); pure false)

unfoldable pub query_block_status : ℕ → ℕ → Nbd (List Chunk)
query_block_status offset len = do
  send_request_header nbd_cmd_block_status offset len
  parse_structured_reply_chunks

unfoldable pub disconnect : Nbd (Unit {0})
disconnect = do
  transmitting ← gets (λ s. s.transmission_phase)
  if transmitting then send_request_header nbd_cmd_disc 0 0 else send_option nbd_opt_abort []

unfoldable pub close : Nbd (Unit {0})
close = do
  unwritten ← gets (λ s. s.transmission_phase && not s.flushed)
  when unwritten (do flush; pure tt)
  closed ← gets (λ s. s.closed)
  when (not closed) (do disconnect; modify (λ s. record s { closed = true }))

unfoldable pub get_size : Nbd ℕ
get_size = do size ← gets (λ s. s.size); or_raise size attribute_error
