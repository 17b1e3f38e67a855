-- ===== src/Nbd/Replies.antt =====
-- ocaml/vhd-tool/scripts/python_nbd_client.py: simple replies, and the chunks of structured replies.
pub mod Chunks
pub mod ErrorOffset
use xen_api.Base.{
  ℕ, zero, suc, ◌-◌, ◌%◌, Bool, Option, none, some, List, [], ◌∷◌, ◌==◌, ◌&&◌, leb, if◌then◌else◌,
  length, take, drop,
}
use xen_api.Base.Bytes.{Bytes, decode}
use xen_api.Base.Utf8.{Text, utf8_decode}
use xen_api.Base.Exec.{pure, raise, guard, or_raise, ◌>>=◌, ◌>>◌}
use xen_api.Nbd.Types.{
  nbd_simple_reply_magic, nbd_structured_reply_magic, nbd_reply_type_none,
  nbd_reply_type_offset_data, nbd_reply_type_offset_hole, nbd_reply_type_block_status,
  nbd_reply_type_error_bit, nbd_reply_type_error_offset, nbd_reply_flag_done, Nbd, assert_protocol,
  flag_set, protocol, struct_error, unicode_error, diverged, transmission, unexpected_reply_type,
  unexpected_handle,
}
use xen_api.Nbd.Socket.{recvall}
use xen_api.Nbd.Options.{field}

unfoldable pub check_handle : ℕ → Nbd (Unit {0})
check_handle handle s = guard (handle == s.handle) (unexpected_handle s.handle handle) s

unfoldable pub parse_simple_reply : ℕ → Nbd Bytes
parse_simple_reply data_length = do
  reply ← recvall 16
  assert_protocol (field 0 4 reply == nbd_simple_reply_magic)
  check_handle (field 8 8 reply)
  bytes ← recvall data_length
  guard (field 4 4 reply == 0) (transmission (field 4 4 reply))
  pure bytes

-- `_parse_block_status_descriptors`: a last piece of fewer than eight bytes is a struct.error
unfoldable pub parse_descriptors : Bytes → Option (List (ℕ × ℕ))
parse_descriptors [] = some []
parse_descriptors (l3 ∷ l2 ∷ l1 ∷ l0 ∷ f3 ∷ f2 ∷ f1 ∷ f0 ∷ rest) = elim (parse_descriptors rest) [
  | none ↦ none
  | some ds ↦ some ((decode (l3 ∷ l2 ∷ l1 ∷ l0 ∷ []), decode (f3 ∷ f2 ∷ f1 ∷ f0 ∷ [])) ∷ ds)
]
parse_descriptors _ = none

-- What the `fields` of a chunk hold beside its header, by the kind of chunk.
pub data Body : Type 0 where
  block_status : ℕ → List (ℕ × ℕ) → Body
  no_data : Body
  offset_data : ℕ → Bytes → Body
  offset_hole : ℕ → ℕ → Body
  error_chunk : ℕ → Text → Option ℕ → Body

pub record Chunk : Type 0 where
  pub flags : ℕ
  pub reply_type : ℕ
  pub data_length : ℕ
  pub body : Body

unfoldable pub handle_block_status_reply : ℕ → Nbd Body
handle_block_status_reply data_length = do
  assert_protocol (leb 12 data_length && (data_length % 8 == 4))
  bytes ← recvall data_length
  descriptors ← or_raise (parse_descriptors (drop 4 bytes)) struct_error
  pure (block_status (field 0 4 bytes) descriptors)

unfoldable pub handle_data_reply : ℕ → Nbd Body
handle_data_reply data_length = do
  assert_protocol (leb 9 data_length)
  buf ← recvall 8
  bytes ← recvall (data_length - 8)
  pure (offset_data (field 0 8 buf) bytes)

unfoldable pub handle_hole_reply : ℕ → Nbd Body
handle_hole_reply data_length = do
  assert_protocol (data_length == 12)
  buf ← recvall 12
  pure (offset_hole (field 0 8 buf) (field 8 4 buf))

-- The offset of an error chunk is read only for the type NBD_REPLY_TYPE_ERROR_OFFSET.
unfoldable pub error_offset : ℕ → Bytes → Nbd (Option ℕ)
error_offset reply_type view =
    if reply_type == nbd_reply_type_error_offset
    then (do guard (length view == 8) struct_error; pure (some (field 0 8 view)))
    else pure none

unfoldable pub handle_structured_reply_error : ℕ → ℕ → Nbd Body
handle_structured_reply_error reply_type data_length = do
  assert_protocol (leb 6 data_length)
  buf ← recvall 6
  guard (leb (field 4 2 buf) (data_length - 6)) protocol
  bytes ← recvall (data_length - 6)
  message ← or_raise (utf8_decode (take (field 4 2 buf) bytes)) unicode_error
  offset ← error_offset reply_type (drop (field 4 2 buf) bytes)
  pure (error_chunk (field 0 4 buf) message offset)

unfoldable pub is_final : ℕ → Bool
is_final flags = flag_set flags nbd_reply_flag_done

unfoldable pub is_error_chunk : ℕ → Bool
is_error_chunk reply_type = flag_set reply_type nbd_reply_type_error_bit

-- The dispatch of `_parse_structured_reply_chunk` on the type of the chunk.
unfoldable pub parse_body : ℕ → ℕ → ℕ → Nbd Body
parse_body flags reply_type data_length =
    if reply_type == nbd_reply_type_block_status
    then handle_block_status_reply data_length
    else if reply_type == nbd_reply_type_none
    then (do assert_protocol (data_length == 0); assert_protocol (is_final flags); pure no_data)
    else if reply_type == nbd_reply_type_offset_data
    then handle_data_reply data_length
    else if reply_type == nbd_reply_type_offset_hole
    then handle_hole_reply data_length
    else if is_error_chunk reply_type
    then handle_structured_reply_error reply_type data_length
    else raise (unexpected_reply_type reply_type)

unfoldable pub parse_structured_reply_chunk : Nbd Chunk
parse_structured_reply_chunk = do
  reply ← recvall 20
  assert_protocol (field 0 4 reply == nbd_structured_reply_magic)
  check_handle (field 8 8 reply)
  body ← parse_body (field 4 2 reply) (field 6 2 reply) (field 16 4 reply)
  pure (record {
    flags = field 4 2 reply;
    reply_type = field 6 2 reply;
    data_length = field 16 4 reply;
    body = body;
  })

-- The generator `_parse_structured_reply_chunks`, run to its end.
unfoldable pub chunk_loop : ℕ → Nbd (List Chunk)
chunk_loop zero = raise diverged
chunk_loop (suc fuel) = do
  chunk ← parse_structured_reply_chunk
  if is_final chunk.flags
      then pure (chunk ∷ [])
      else do others ← chunk_loop fuel; pure (chunk ∷ others)
