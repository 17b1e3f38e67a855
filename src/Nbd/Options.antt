-- ===== src/Nbd/Options.antt =====
-- ocaml/vhd-tool/scripts/python_nbd_client.py: the options of the newstyle handshake, and their
-- replies.
pub mod Fields
pub mod Replies
use xen_api.Base.{
  ℕ, Bool, true, false, Option, none, some, [], ◌++◌, ltb, ◌==◌, not, if◌then◌else◌, length, take,
  drop,
}
use xen_api.Base.Bytes.{Bytes, codes, decode}
use xen_api.Base.Utf8.{Text, utf8_decode}
use xen_api.Base.Exec.{pure, gets, or_raise, guard, modify, ◌>>=◌, ◌>>◌}
use xen_api.Nbd.Types.{
  nbd_opt_starttls, nbd_opt_structured_reply, nbd_rep_error_bit, nbd_rep_ack, nbd_rep_meta_context,
  option_reply_magic, Nbd, assert_protocol, flag_set, sendall, pack, protocol, struct_error,
  unicode_error, option_error, unexpected_option,
}
use xen_api.Nbd.Socket.{recvall}

-- struct.unpack of the field of `w` bytes at `from`
unfoldable pub field : ℕ → ℕ → Bytes → ℕ
field from w bs = decode (take w (drop from bs))

abbrev pub is_empty : Bytes → Bool
is_empty [] = true
is_empty _ = false

abbrev pub expects : Option ℕ → ℕ → Bool
expects none option = false
expects (some last) option = last == option

unfoldable pub send_option : ℕ → Bytes → Nbd (Unit {0})
send_option option bytes = do
  sendall (codes "IHAVEOPT")
  header ← pack 4 option
  data_length ← pack 4 (length bytes)
  sendall ((header ++ data_length) ++ bytes)
  modify (λ s. record s { last_sent_option = some option })

unfoldable pub parse_option_reply : Nbd (ℕ × Bytes)
parse_option_reply = do
  reply ← recvall 20
  assert_protocol (field 0 8 reply == option_reply_magic)
  last ← gets (λ s. s.last_sent_option)
  guard (expects last (field 8 4 reply)) (unexpected_option last (field 8 4 reply))
  guard (not (flag_set (field 12 4 reply) nbd_rep_error_bit)) (option_error (field 12 4 reply))
  bytes ← recvall (field 16 4 reply)
  pure (field 12 4 reply, bytes)

unfoldable pub parse_option_reply_ack : Nbd Bytes
parse_option_reply_ack = do
  (reply_type, bytes) ← parse_option_reply
  guard (reply_type == nbd_rep_ack) protocol
  pure bytes

unfoldable pub parse_meta_context_reply : Nbd (Option (ℕ × Text))
parse_meta_context_reply = do
  (reply_type, bytes) ← parse_option_reply
  if reply_type == nbd_rep_ack then pure none else do
    assert_protocol (reply_type == nbd_rep_meta_context)
    guard (not (ltb (length bytes) 4)) struct_error
    name ← or_raise (utf8_decode (drop 4 bytes)) unicode_error
    pure (some (field 0 4 bytes, name))

unfoldable pub negotiate_structured_reply : Nbd (Unit {0})
negotiate_structured_reply = do
  send_option nbd_opt_structured_reply []
  parse_option_reply_ack
  modify (λ s. record s { structured_reply = true })

unfoldable pub initiate_tls_upgrade : Nbd (Unit {0})
initiate_tls_upgrade = do
  send_option nbd_opt_starttls []
  bytes ← parse_option_reply_ack
  assert_protocol (is_empty bytes)
