-- ===== src/Nbd/Progress/Replies.antt =====
-- The readers of python_nbd_client.py take the header of each reply, and its loops over replies end.
use xen_api.Base.{ℕ, ◌≢◌, Option, ◌==◌}
use xen_api.Base.Bytes.{Bytes}
use xen_api.Nbd.Types.{
  protocol, value_error, struct_error, unicode_error, diverged, transmission, option_error,
  unexpected_option, unexpected_reply_type, unexpected_handle,
}
use xen_api.Nbd.Options.{parse_option_reply, parse_meta_context_reply}
use xen_api.Nbd.Handshake.{parse_info}
use xen_api.Nbd.Replies.{
  check_handle, parse_simple_reply, handle_block_status_reply, handle_data_reply, handle_hole_reply,
  error_offset, handle_structured_reply_error, parse_body, parse_structured_reply_chunk,
}
use xen_api.Nbd.Progress.{
  Progress, guard-Progress, recvall-Progress, Progress-weaken, progress_rules,
}
use xen_api.Nbd.Socket.{recvall}

pub recvall-takes_some : (n : ℕ) → Progress 0 (recvall n)
recvall-takes_some n = Progress-weaken n (recvall n) (recvall-Progress n)

pub protocol-ne : protocol ≢ diverged
protocol-ne e = cc

pub struct_error-ne : struct_error ≢ diverged
struct_error-ne e = cc

pub unicode_error-ne : unicode_error ≢ diverged
unicode_error-ne e = cc

pub unexpected_option-ne : (o : Option ℕ) (n : ℕ) → unexpected_option o n ≢ diverged
unexpected_option-ne o n e = cc

pub option_error-ne : (n : ℕ) → option_error n ≢ diverged
option_error-ne n e = cc

pub unexpected_handle-ne : (n m : ℕ) → unexpected_handle n m ≢ diverged
unexpected_handle-ne n m e = cc

pub unexpected_reply_type-ne : (n : ℕ) → unexpected_reply_type n ≢ diverged
unexpected_reply_type-ne n e = cc

pub transmission-ne : (n : ℕ) → transmission n ≢ diverged
transmission-ne n e = cc

pub ruleset rules = (
  progress_rules, recvall-takes_some, protocol-ne, struct_error-ne, unicode_error-ne,
  unexpected_option-ne, option_error-ne, unexpected_handle-ne, unexpected_reply_type-ne,
  transmission-ne,
)

pub parse_option_reply-Progress : Progress 20 parse_option_reply
unfolding parse_option_reply
parse_option_reply-Progress = search rules depth 20

pub parse_info-Progress : (bytes : Bytes) → Progress 0 (parse_info bytes)
unfolding parse_info
parse_info-Progress bytes = search rules depth 20

pub check_handle-Progress : (handle : ℕ) → Progress 0 (check_handle handle)
unfolding check_handle
check_handle-Progress handle = record {
  from = λ c h.
      (guard-Progress (handle == c.handle) _ (unexpected_handle-ne c.handle handle)).from c h;
}

pub parse_body-Progress : (flags reply_type len : ℕ) → Progress 0 (parse_body flags reply_type len)
unfolding parse_body handle_block_status_reply handle_data_reply handle_hole_reply
    handle_structured_reply_error error_offset
parse_body-Progress flags reply_type len = search rules depth 30

pub parse_structured_reply_chunk-Progress : Progress 20 parse_structured_reply_chunk
unfolding parse_structured_reply_chunk
parse_structured_reply_chunk-Progress =
    search (rules, parse_body-Progress, check_handle-Progress) depth 20

pub parse_simple_reply-Progress : (len : ℕ) → Progress 16 (parse_simple_reply len)
unfolding parse_simple_reply
parse_simple_reply-Progress len = search (rules, check_handle-Progress) depth 20

pub parse_meta_context_reply-Progress : Progress 20 parse_meta_context_reply
unfolding parse_meta_context_reply
parse_meta_context_reply-Progress = search (rules, parse_option_reply-Progress) depth 20

pub value_error-ne : value_error ≢ diverged
value_error-ne e = cc

pub simple_reply-takes_some : (len : ℕ) → Progress 0 (parse_simple_reply len)
simple_reply-takes_some len =
    Progress-weaken 16 (parse_simple_reply len) (parse_simple_reply-Progress len)
