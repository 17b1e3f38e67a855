-- ===== src/Nbd/Handshake.antt =====
-- ocaml/vhd-tool/scripts/python_nbd_client.py: queries of the handshake phase, and the ways into the
-- transmission phase.
use xen_api.Base.{
  ℕ, zero, suc, Bool, true, false, none, some, List, [], ◌∷◌, ◌++◌, ◌==◌, not, ltb, if◌then◌else◌,
  length, drop,
}
use xen_api.Base.Bytes.{Bytes, codes, encode, bytes_eq}
use xen_api.Base.Utf8.{Text, utf8_encode}
use xen_api.Base.Exec.{pure, raise, gets, guard, modify, when, ◌>>=◌, ◌>>◌}
use xen_api.Nbd.Types.{
  nbd_flag_has_flags, nbd_flag_c_fixed_newstyle, nbd_opt_export_name, nbd_opt_info,
  nbd_opt_list_meta_context, nbd_opt_set_meta_context, nbd_rep_ack, nbd_rep_info, nbd_info_export,
  nbd_info_block_size, Client, Nbd, assert_protocol, flag_set, sendall, pack, protocol,
  struct_error, diverged,
}
use xen_api.Nbd.Socket.{recvall, flat}
use xen_api.Nbd.Options.{
  field, is_empty, send_option, parse_option_reply, parse_meta_context_reply, initiate_tls_upgrade,
}

-- The two kinds of information that the client understands.
pub data Info : Type 0 where
  block_size : ℕ → ℕ → ℕ → Info
  export_info : ℕ → ℕ → Info

unfoldable pub pack_requests : List ℕ → Nbd Bytes
pack_requests [] = pure []
pack_requests (r ∷ rs) = do first ← pack 2 r; others ← pack_requests rs; pure (first ++ others)

-- One NBD_REP_INFO reply; a type that is not known is ignored.
unfoldable pub parse_info : Bytes → Nbd (List Info)
parse_info bytes = do
  guard (not (ltb (length bytes) 2)) struct_error
  let info_type = field 0 2 bytes
  let payload = drop 2 bytes
  if info_type == nbd_info_block_size
      then (do
        assert_protocol (length bytes == 14)
        pure (block_size (field 0 4 payload) (field 4 4 payload) (field 8 4 payload) ∷ []))
      else if info_type == nbd_info_export
      then (do
        assert_protocol (length bytes == 12)
        pure (export_info (field 0 8 payload) (field 8 2 payload) ∷ []))
      else pure []

unfoldable pub info_loop : ℕ → List Info → Nbd (List Info)
info_loop zero infos = raise diverged
info_loop (suc fuel) infos = do
  (reply_type, bytes) ← parse_option_reply
  if reply_type == nbd_rep_info
      then (do found ← parse_info bytes; info_loop fuel (infos ++ found))
      else if reply_type == nbd_rep_ack
      then (do assert_protocol (is_empty bytes); pure infos)
      else raise protocol

-- Each round of a loop over replies reads twenty bytes at the least.
abbrev pub rounds : Client → ℕ
rounds s = suc (length (flat s.incoming))

unfoldable pub request_info : Text → List ℕ → Nbd (List Info)
unfolding pack_requests
request_info export_name info_requests = do
  name_length ← pack 4 (length export_name)
  count ← pack 2 (length info_requests)
  requests ← pack_requests info_requests
  send_option nbd_opt_info (name_length ++ (utf8_encode export_name ++ (count ++ requests)))
  fuel ← gets rounds
  info_loop fuel []

unfoldable pub pack_queries : List Text → Nbd Bytes
pack_queries [] = pure []
pack_queries (q ∷ qs) = do
  query_length ← pack 4 (length q)
  others ← pack_queries qs
  pure (query_length ++ (utf8_encode q ++ others))

unfoldable pub meta_context_loop : ℕ → Nbd (List (ℕ × Text))
meta_context_loop zero = raise diverged
meta_context_loop (suc fuel) = do
  reply ← parse_meta_context_reply
  elim reply [
    | none ↦ pure []
    | some context ↦ (do others ← meta_context_loop fuel; pure (context ∷ others))
  ]

unfoldable pub process_meta_context_option : ℕ → Text → List Text → Nbd (List (ℕ × Text))
unfolding pack_queries
process_meta_context_option option export_name queries = do
  name_length ← pack 4 (length export_name)
  count ← pack 4 (length queries)
  packed ← pack_queries queries
  send_option option (name_length ++ (utf8_encode export_name ++ (count ++ packed)))
  fuel ← gets rounds
  meta_context_loop fuel

unfoldable pub set_meta_contexts : Text → List Text → Nbd (List (ℕ × Text))
set_meta_contexts = process_meta_context_option nbd_opt_set_meta_context

unfoldable pub list_meta_contexts : Text → List Text → Nbd (List (ℕ × Text))
list_meta_contexts = process_meta_context_option nbd_opt_list_meta_context

unfoldable pub connect : Text → Nbd (Unit {0})
connect exportname = do
  send_option nbd_opt_export_name (utf8_encode exportname)
  buf ← recvall 10
  modify (λ s. record s { size = some (field 0 8 buf); transmission_flags = some (field 8 2 buf) })
  recvall 124
  modify (λ s. record s { transmission_phase = true })

unfoldable pub old_style_handshake : Nbd (Unit {0})
old_style_handshake = do
  nbd_magic ← recvall 8
  assert_protocol (bytes_eq nbd_magic (codes "NBDMAGIC"))
  buf ← recvall 20
  modify (λ s. record s { size = some (field 8 8 buf); transmission_flags = some (field 16 4 buf) })
  assert_protocol (field 0 8 buf == 0x00420281861253)
  recvall 124
  modify (λ s. record s { transmission_phase = true })

-- The upgrade of the socket itself is the `ssl` module's, an argument.
module _ (upgrade_socket_to_tls : Nbd (Unit {0})) where
  unfoldable pub fixed_new_style_handshake : Bool → Nbd (Unit {0})
  fixed_new_style_handshake use_tls = do
    nbd_magic ← recvall 8
    assert_protocol (bytes_eq nbd_magic (codes "NBDMAGIC"))
    opt_magic ← recvall 8
    assert_protocol (bytes_eq opt_magic (codes "IHAVEOPT"))
    buf ← recvall 2
    assert_protocol (flag_set (field 0 2 buf) nbd_flag_has_flags)
    sendall (encode 4 nbd_flag_c_fixed_newstyle)
    when use_tls (do initiate_tls_upgrade; upgrade_socket_to_tls)

  -- `__init__` once the socket is connected
  unfoldable pub start : Bool → Bool → Bool → Text → Nbd (Unit {0})
  start use_tls new_style_handshake connect_now exportname =
      if new_style_handshake
      then (do fixed_new_style_handshake use_tls; when connect_now (connect exportname))
      else old_style_handshake

-- The attributes that `__init__` sets, for a peer that will send these segments.
abbrev pub new_client : List Bytes → Client
new_client segs = record {
  incoming = segs;
  sent = [];
  flushed = true;
  closed = false;
  structured_reply = false;
  transmission_phase = false;
  handle = 0;
  last_sent_option = none;
  size = none;
  transmission_flags = none;
}
