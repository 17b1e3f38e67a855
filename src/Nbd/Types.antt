-- ===== src/Nbd/Types.antt =====
-- ocaml/vhd-tool/scripts/python_nbd_client.py: the constants, the exceptions and the client object.
use Prim.Native.Nat.{bit_and}
use xen_api.Base.{ℕ, ◌+◌, ◌*◌, ◌^◌, Bool, not, Option, List, ◌++◌, ltb, ◌==◌, if◌then◌else◌}
use xen_api.Base.Bytes.{Bytes, encode}
use xen_api.Base.Exec.{Exec, ok, err, guard}

-- Request types
abbrev pub nbd_cmd_read : ℕ
nbd_cmd_read = 0

abbrev pub nbd_cmd_write : ℕ
nbd_cmd_write = 1

abbrev pub nbd_cmd_disc : ℕ
nbd_cmd_disc = 2

abbrev pub nbd_cmd_flush : ℕ
nbd_cmd_flush = 3

abbrev pub nbd_cmd_block_status : ℕ
nbd_cmd_block_status = 7

abbrev pub nbd_flag_has_flags : ℕ
nbd_flag_has_flags = 1

-- 1 << 2
abbrev pub nbd_flag_send_flush : ℕ
nbd_flag_send_flush = 4

abbrev pub nbd_flag_c_fixed_newstyle : ℕ
nbd_flag_c_fixed_newstyle = 1

-- Option types
abbrev pub nbd_opt_export_name : ℕ
nbd_opt_export_name = 1

abbrev pub nbd_opt_abort : ℕ
nbd_opt_abort = 2

abbrev pub nbd_opt_starttls : ℕ
nbd_opt_starttls = 5

abbrev pub nbd_opt_info : ℕ
nbd_opt_info = 6

abbrev pub nbd_opt_structured_reply : ℕ
nbd_opt_structured_reply = 8

abbrev pub nbd_opt_list_meta_context : ℕ
nbd_opt_list_meta_context = 9

abbrev pub nbd_opt_set_meta_context : ℕ
nbd_opt_set_meta_context = 10

-- Option reply types
abbrev pub nbd_rep_error_bit : ℕ
nbd_rep_error_bit = 2 ^ 31

abbrev pub nbd_rep_ack : ℕ
nbd_rep_ack = 1

abbrev pub nbd_rep_info : ℕ
nbd_rep_info = 3

abbrev pub nbd_rep_meta_context : ℕ
nbd_rep_meta_context = 4

abbrev pub option_reply_magic : ℕ
option_reply_magic = 0x3E889045565A9

abbrev pub nbd_request_magic : ℕ
nbd_request_magic = 0x25609513

abbrev pub nbd_simple_reply_magic : ℕ
nbd_simple_reply_magic = 0x67446698

abbrev pub nbd_structured_reply_magic : ℕ
nbd_structured_reply_magic = 0x668E33EF

-- Structured reply types
abbrev pub nbd_reply_type_none : ℕ
nbd_reply_type_none = 0

abbrev pub nbd_reply_type_offset_data : ℕ
nbd_reply_type_offset_data = 1

abbrev pub nbd_reply_type_offset_hole : ℕ
nbd_reply_type_offset_hole = 2

abbrev pub nbd_reply_type_block_status : ℕ
nbd_reply_type_block_status = 5

abbrev pub nbd_reply_type_error_bit : ℕ
nbd_reply_type_error_bit = 2 ^ 15

-- `1 << 15 + 2`, which Python reads as `1 << (15 + 2)`
abbrev pub nbd_reply_type_error_offset : ℕ
nbd_reply_type_error_offset = 1 * 2 ^ (15 + 2)

abbrev pub nbd_reply_flag_done : ℕ
nbd_reply_flag_done = 1

abbrev pub nbd_info_export : ℕ
nbd_info_export = 0

abbrev pub nbd_info_block_size : ℕ
nbd_info_block_size = 3

-- The exceptions, those of Python's own that the code can meet, and `diverged`: the fuel of a
-- `while True` loop ran out. `received_error` and `unexpected_reply` are those of get_nbd_extents.py.
pub data Error : Type 0 where
  eof protocol value_error struct_error unicode_error attribute_error diverged : Error
  key_error received_error unexpected_reply : Error
  transmission : ℕ → Error
  option_error : ℕ → Error
  unexpected_option : Option ℕ → ℕ → Error
  unexpected_reply_type : ℕ → Error
  unexpected_handle : ℕ → ℕ → Error

-- `incoming` is what the peer will have sent, one entry for each segment that arrives; the
-- connection is at its end after the last. An attribute that is not set yet is `none`.
pub record Client : Type 0 where
  pub incoming : List Bytes
  pub sent : Bytes
  pub flushed : Bool
  pub closed : Bool
  pub structured_reply : Bool
  pub transmission_phase : Bool
  pub handle : ℕ
  pub last_sent_option : Option ℕ
  pub size : Option ℕ
  pub transmission_flags : Option ℕ

abbrev pub Nbd : Type 0 → Type 0
Nbd A = Exec Error Client A

-- raise NBDProtocolError if the given condition is false
abbrev pub assert_protocol : Bool → Nbd (Unit {0})
assert_protocol b = guard b protocol

abbrev pub flag_set : ℕ → ℕ → Bool
flag_set flags bit = not (bit_and flags bit == 0)

-- self._s.sendall(data)
unfoldable pub sendall : Bytes → Nbd (Unit {0})
sendall bytes s = (ok tt, record s { sent = s.sent ++ bytes })

-- struct.pack of one field: a number that does not fit is a struct.error
unfoldable pub pack : ℕ → ℕ → Nbd Bytes
pack w n s = if ltb n (256 ^ w) then (ok (encode w n), s) else (err struct_error, s)
