-- ===== src/Nbd/Options/Replies.antt =====
-- `_parse_option_reply` of python_nbd_client.py, for every reply header that a server can send.
use xen_api.Base.{
  ℕ, ◌<◌, ◌^◌, ◌≡◌, refl, ◌∙◌, Option, ◌++◌, arith, length, ◌==◌, if◌then◌else◌, length-append,
}
use xen_api.Base.Bytes.{Bytes, encode, length-encode}
use xen_api.Base.Exec.{Result, ok, err}
use xen_api.Nbd.Types.{
  Client, nbd_rep_error_bit, option_reply_magic, Error, flag_set, protocol, option_error,
  unexpected_option,
}
use xen_api.Nbd.Socket.{flat}
use xen_api.Nbd.Socket.Laws.{NoEmpty, skip, recvall-front}
use xen_api.Nbd.Options.{field, expects, parse_option_reply}
use xen_api.Nbd.Options.Fields.{field-skip, field-front, field-last}

abbrev pub option_header : ℕ → ℕ → ℕ → ℕ → Bytes
option_header magic option reply_type len =
    encode 8 magic ++ (encode 4 option ++ (encode 4 reply_type ++ encode 4 len))

-- What the client makes of a reply, in the order of its checks.
abbrev pub verdict : Option ℕ → ℕ → ℕ → ℕ → Bytes → Result Error (ℕ × Bytes)
verdict last magic option reply_type bytes =
    if magic == option_reply_magic
    then (if expects last option
        then (if flag_set reply_type nbd_rep_error_bit
            then err (option_error reply_type)
            else ok (reply_type, bytes))
        else err (unexpected_option last option))
    else err protocol

module _ (magic option reply_type len : ℕ) (hm : magic < 2 ^ 64) (ho : option < 2 ^ 32)
    (ht : reply_type < 2 ^ 32) (hl : len < 2 ^ 32) where
  header_length : length (option_header magic option reply_type len) ≡ 20
  header_length = omega (
    arith,
    length-append (encode 8 magic) (encode 4 option ++ (encode 4 reply_type ++ encode 4 len)),
    length-append (encode 4 option) (encode 4 reply_type ++ encode 4 len),
    length-append (encode 4 reply_type) (encode 4 len),
    length-encode 8 magic,
    length-encode 4 option,
    length-encode 4 reply_type,
    length-encode 4 len,
  )

  header_magic : field 0 8 (option_header magic option reply_type len) ≡ magic
  header_magic = field-front 8 magic _ hm

  header_option : field 8 4 (option_header magic option reply_type len) ≡ option
  header_option = field-skip 8 magic _ 8 0 4 refl ∙ field-front 4 option _ ho

  header_type : field 12 4 (option_header magic option reply_type len) ≡ reply_type
  header_type =
      field-skip 8 magic _ 12 4 4 refl
      ∙ field-skip 4 option _ 4 0 4 refl
      ∙ field-front 4 reply_type _ ht

  header_len : field 16 4 (option_header magic option reply_type len) ≡ len
  header_len =
      field-skip 8 magic _ 16 8 4 refl
      ∙ field-skip 4 option _ 8 4 4 refl
      ∙ field-skip 4 reply_type _ 4 0 4 refl
      ∙ field-last 4 len hl

  module _ (bytes rest : Bytes) (c : Client) (n : NoEmpty c.incoming) (e : length bytes ≡ len)
      (f : flat c.incoming ≡ option_header magic option reply_type len ++ (bytes ++ rest)) where
    option_reply_facts :
        ((parse_option_reply c).0 ≡ verdict c.last_sent_option magic option reply_type bytes)
        × ((parse_option_reply c).0 ≡ ok (reply_type, bytes)
            → flat (parse_option_reply c).1.incoming ≡ rest)
    unfolding parse_option_reply skip
    option_reply_facts =
        let first =
          recvall-front 20 c (option_header magic option reply_type len) (bytes ++ rest) n
            header_length f in
        let second = recvall-front len (skip 20 c) bytes rest first.2 e first.1 in
        ground
          (arith, first.0, second.0, second.1, header_magic, header_option, header_type, header_len)

    -- An option reply whose fields fit, arriving whole on a stream of segments none of which is empty,
    -- is checked for its magic number, then for the option that it answers, then for its error bit, and
    -- only then is its payload returned.
    pub parse_option_reply-verdict :
        (parse_option_reply c).0 ≡ verdict c.last_sent_option magic option reply_type bytes
    parse_option_reply-verdict = option_reply_facts.0

    -- An option reply that is accepted is taken from the stream to its end and no further.
    pub parse_option_reply-rest :
        (parse_option_reply c).0 ≡ ok (reply_type, bytes)
        → flat (parse_option_reply c).1.incoming ≡ rest
    parse_option_reply-rest = option_reply_facts.1
