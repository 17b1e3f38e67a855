-- ===== src/Nbd/Extents.antt =====
-- ocaml/vhd-tool/scripts/get_nbd_extents.py: the extents of an export, by block status requests of the
-- client.
pub mod Cover
pub mod Moves
pub mod Stalls
use xen_api.Base.{
  ℕ, zero, suc, ◌+◌, ◌-◌, ◌*◌, ◌^◌, ◌%◌, min, Bool, true, false, not, Option, none, some, List, [],
  ◌∷◌, ◌++◌, ◌&&◌, ltb, leb, ◌==◌, if◌then◌else◌, length,
}
use xen_api.Base.Bytes.{Bytes, codes, bytes_eq as text_eq}
use xen_api.Base.Int.{ℤ, pos, negsuc}
use xen_api.Base.Utf8.{Text}
use xen_api.Base.Exec.{Result, ok, err, pure, raise, gets, or_raise, guard, ◌>>=◌, ◌>>◌}
use xen_api.Nbd.Types.{
  Client, Error, Nbd, assert_protocol, nbd_reply_type_block_status, diverged, protocol, value_error,
  key_error, received_error, unexpected_reply,
}
use xen_api.Nbd.Options.{negotiate_structured_reply}
use xen_api.Nbd.Handshake.{rounds, set_meta_contexts, connect, start}
use xen_api.Nbd.Replies.{Body, block_status, Chunk, is_error_chunk}
use xen_api.Nbd.Commands.{query_block_status, get_size, close}

-- MAX_REQUEST_LEN: the largest multiple of 512 in 32 bits
abbrev pub max_request_len : ℕ
max_request_len = 2 ^ 32 - 1 - (2 ^ 32 - 1) % 512

-- reply["context_id"] and reply["descriptors"]
abbrev pub status_of : Body → Option (ℕ × List (ℕ × ℕ))
status_of (block_status context_id descriptors) = some (context_id, descriptors)
status_of _ = none

-- The extents of one reply, and the offset behind them. Only the last may reach beyond the end, and is
-- cut there.
unfoldable pub take_extents : ℕ → List (ℕ × ℕ) → ℕ → Nbd (List (ℕ × ℕ) × ℕ)
take_extents end [] offset = pure ([], offset)
take_extents end ((len, flags) ∷ []) offset = do
  assert_protocol (leb (offset + min len (end - offset)) end)
  pure ((min len (end - offset), flags) ∷ [], offset + min len (end - offset))
take_extents end ((len, flags) ∷ d ∷ ds) offset = do
  assert_protocol (leb (offset + len) end)
  (others, last) ← take_extents end (d ∷ ds) (offset + len)
  pure ((len, flags) ∷ others, last)

-- What is made of the reply to one request.
unfoldable pub process_reply : ℕ → ℕ → Chunk → ℕ → Nbd (List (ℕ × ℕ) × ℕ)
process_reply meta_context_id end reply offset =
    if is_error_chunk reply.reply_type
    then raise received_error
    else if not (reply.reply_type == nbd_reply_type_block_status)
    then raise unexpected_reply
    else (do
      (context_id, descriptors) ← or_raise (status_of reply.body) key_error
      assert_protocol (context_id == meta_context_id)
      take_extents end descriptors offset)

-- `assert_protocol(len(xs) == 1)` and `xs[0]`
abbrev pub assert_one : {A : Type 0} → List A → Nbd A
assert_one (x ∷ []) = pure x
assert_one _ = raise protocol

-- `while offset < end`; the generator is run to its end, as `list` does.
unfoldable pub extents_loop : ℕ → ℕ → ℕ → ℕ → Nbd (List (ℕ × ℕ))
extents_loop zero meta_context_id end offset = raise diverged
extents_loop (suc fuel) meta_context_id end offset =
    if ltb offset end
    then (do
      replies ← query_block_status offset (min max_request_len (end - offset))
      reply ← assert_one replies
      (extents, next) ← process_reply meta_context_id end reply offset
      others ← extents_loop fuel meta_context_id end next
      pure (extents ++ others))
    else pure []

-- The area asked for, if the export has it.
abbrev pub area : ℤ → ℤ → ℕ → Option (ℕ × ℕ)
area (pos offset) (pos len) size =
    if ltb 0 len && leb (offset + len) size then some (offset, offset + len) else none
area _ _ size = none

-- The body of the `with` statement.
unfoldable pub extents_of : Text → ℤ → ℤ → Nbd (List (ℕ × ℕ))
extents_of exportname offset len = do
  negotiate_structured_reply
  contexts ← set_meta_contexts exportname (codes "base:allocation" ∷ [])
  (meta_context_id, meta_context_name) ← assert_one contexts
  assert_protocol (text_eq meta_context_name (codes "base:allocation"))
  connect exportname
  size ← get_size
  (from, end) ← or_raise (area offset len size) value_error
  fuel ← gets rounds
  extents_loop fuel meta_context_id end from

-- `with ... as client`: the client is closed however the body ends, and an error of `close` takes the
-- place of one of the body.
unfoldable pub with_client : {A : Type 0} → Nbd A → Nbd A
with_client body s =
    let (r, s1) = body s in
    let (closed, s2) = close s1 in elim closed [ err e ↦ (err e, s2) | ok _ ↦ (r, s2) ]

-- The upgrade to TLS is not asked for.
unfoldable pub get_extents : Nbd (Unit {0}) → Text → ℤ → ℤ → Nbd (List (ℕ × ℕ))
get_extents upgrade_socket_to_tls exportname offset len = do
  start upgrade_socket_to_tls false true false exportname
  with_client (extents_of exportname offset len)
