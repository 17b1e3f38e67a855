-- ===== src/Nbd/Commands/Requests.antt =====
-- The requests of python_nbd_client.py and their simple replies: what is sent, and what is made of
-- the answer.
use xen_api.Base.{
  ℕ, ◌+◌, ◌<◌, ◌^◌, ◌≡◌, refl, ◌∙◌, ◌++◌, arith, length, ◌==◌, if◌then◌else◌, length-append,
}
use xen_api.Base.Bytes.{Bytes, encode, length-encode}
use xen_api.Base.Exec.{Result, ok, err}
use xen_api.Nbd.Types.{
  nbd_request_magic, nbd_simple_reply_magic, Error, Client, sendall, pack, protocol, transmission,
  unexpected_handle,
}
use xen_api.Nbd.Socket.{flat}
use xen_api.Nbd.Socket.Laws.{NoEmpty, skip, recvall-front}
use xen_api.Nbd.Options.{field}
use xen_api.Nbd.Options.Fields.{field-skip, field-front, field-last}
use xen_api.Nbd.Replies.{parse_simple_reply, check_handle}
use xen_api.Nbd.Commands.{send_request_header}

abbrev pub request_header : ℕ → ℕ → ℕ → ℕ → Bytes
request_header request_type handle offset len =
    encode 4 nbd_request_magic
    ++ (encode 2 0
        ++ (encode 2 request_type ++ (encode 8 handle ++ (encode 8 offset ++ encode 4 len))))

abbrev pub simple_header : ℕ → ℕ → ℕ → Bytes
simple_header magic errno handle = encode 4 magic ++ (encode 4 errno ++ encode 8 handle)

-- The client after a request that fits its fields.
abbrev pub requested : ℕ → ℕ → ℕ → Client → Client
requested request_type offset len c = record c {
  handle = c.handle + 1;
  sent = c.sent ++ request_header request_type (c.handle + 1) offset len;
}

-- A request whose fields fit is sent as one header of 28 bytes with the next handle, and nothing else
-- of the client changes.
pub send_request_header_lem :
    (request_type offset len : ℕ) (c : Client)
    → request_type < 2 ^ 16
    → offset < 2 ^ 64
    → len < 2 ^ 32
    → c.handle + 1 < 2 ^ 64
    → send_request_header request_type offset len c ≡ (ok tt, requested request_type offset len c)
unfolding send_request_header pack sendall
send_request_header_lem request_type offset len c ht ho hl hh = ground arith

-- What the client makes of a simple reply, in the order of its checks. The payload is taken before
-- the error number is looked at.
abbrev pub simple_verdict : ℕ → ℕ → ℕ → ℕ → Bytes → Result Error Bytes
simple_verdict expected magic errno handle bytes =
    if magic == nbd_simple_reply_magic
    then (if handle == expected
        then (if errno == 0 then ok bytes else err (transmission errno))
        else err (unexpected_handle expected handle))
    else err protocol

module _ (magic errno handle : ℕ) (hm : magic < 2 ^ 32) (he : errno < 2 ^ 32) (hh : handle < 2 ^ 64)
    (bytes rest : Bytes) (c : Client) (n : NoEmpty c.incoming)
    (f : flat c.incoming ≡ simple_header magic errno handle ++ (bytes ++ rest)) where
  simple_length : length (simple_header magic errno handle) ≡ 16
  simple_length = omega (
    arith,
    length-append (encode 4 magic) (encode 4 errno ++ encode 8 handle),
    length-append (encode 4 errno) (encode 8 handle),
    length-encode 4 magic,
    length-encode 4 errno,
    length-encode 8 handle,
  )

  simple_magic : field 0 4 (simple_header magic errno handle) ≡ magic
  simple_magic = field-front 4 magic _ hm

  simple_errno : field 4 4 (simple_header magic errno handle) ≡ errno
  simple_errno = field-skip 4 magic _ 4 0 4 refl ∙ field-front 4 errno _ he

  simple_handle : field 8 8 (simple_header magic errno handle) ≡ handle
  simple_handle =
      field-skip 4 magic _ 8 4 8 refl ∙ field-skip 4 errno _ 4 0 8 refl ∙ field-last 8 handle hh

  pub simple_reply_facts :
      ((parse_simple_reply (length bytes) c).0 ≡ simple_verdict c.handle magic errno handle bytes)
      × ((parse_simple_reply (length bytes) c).0 ≡ ok bytes
          → flat (parse_simple_reply (length bytes) c).1.incoming ≡ rest)
      × ((parse_simple_reply (length bytes) c).1
          ≡ record c { incoming = (parse_simple_reply (length bytes) c).1.incoming })
  unfolding parse_simple_reply check_handle skip
  simple_reply_facts =
      let first =
        recvall-front 16 c (simple_header magic errno handle) (bytes ++ rest) n simple_length f in
      let second = recvall-front (length bytes) (skip 16 c) bytes rest first.2 refl first.1 in
      ground (arith, first.0, second.0, second.1, simple_magic, simple_errno, simple_handle)

  -- A simple reply whose fields fit, arriving whole on a stream of segments none of which is empty, is
  -- taken only if it has the magic number, answers the last request and reports no error, checked in
  -- this order; nothing of the client but what has arrived changes.
  pub parse_simple_reply_verdict :
      ((parse_simple_reply (length bytes) c).0 ≡ simple_verdict c.handle magic errno handle bytes)
      × ((parse_simple_reply (length bytes) c).1
          ≡ record c { incoming = (parse_simple_reply (length bytes) c).1.incoming })
  parse_simple_reply_verdict = (simple_reply_facts.0, simple_reply_facts.2)
