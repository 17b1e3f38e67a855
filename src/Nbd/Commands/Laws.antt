-- ===== src/Nbd/Commands/Laws.antt =====
-- The commands of python_nbd_client.py from the request to the answer, and the end of a connection.
use xen_api.Base.{ℕ, ◌+◌, ◌<◌, ◌^◌, ◌%◌, ◌≡◌, ◌≢◌, ◌⊎◌, false, [], ◌++◌, arith, length}
use xen_api.Base.Bytes.{Bytes}
use xen_api.Base.Exec.{ok, err}
use xen_api.Nbd.Types.{
  nbd_cmd_read, nbd_cmd_write, nbd_simple_reply_magic, Client, sendall, value_error,
}
use xen_api.Nbd.Socket.{flat}
use xen_api.Nbd.Socket.Laws.{NoEmpty}
use xen_api.Nbd.Commands.{check_alignment, write, read, bytes_read}
use xen_api.Nbd.Commands.Requests.{
  request_header, simple_header, requested, send_request_header_lem, simple_reply_facts,
}

module _ (bytes : Bytes) (offset : ℕ) (c : Client) where
  -- A request that is not aligned to 512 bytes is refused before anything is sent or changed.
  pub write_unaligned :
      (offset % 512 ≢ 0) ⊎ (length bytes % 512 ≢ 0) → write bytes offset c ≡ (err value_error, c)
  unfolding write check_alignment
  write_unaligned h = ground arith

  pub read_unaligned :
      (len : ℕ) → (offset % 512 ≢ 0) ⊎ (len % 512 ≢ 0) → read offset len c ≡ (err value_error, c)
  unfolding read check_alignment
  read_unaligned len h = ground arith

module _ (bytes rest : Bytes) (offset : ℕ) (c : Client) (n : NoEmpty c.incoming)
    (f : flat c.incoming ≡ simple_header nbd_simple_reply_magic 0 (c.handle + 1) ++ rest)
    (aligned : offset % 512 ≡ 0) (whole : length bytes % 512 ≡ 0) (ho : offset < 2 ^ 64)
    (hl : length bytes < 2 ^ 32) (hh : c.handle + 1 < 2 ^ 64) where
  written : Client
  written = record c {
    flushed = false;
    handle = c.handle + 1;
    sent = (c.sent ++ request_header nbd_cmd_write (c.handle + 1) offset (length bytes)) ++ bytes;
  }

  -- An aligned write whose sizes fit and whose answer reports no error returns the length, sends one
  -- request with the payload behind it, leaves the connection unflushed, and takes exactly the answer.
  pub write_lem :
      ((write bytes offset c).0 ≡ ok (length bytes))
      × ((write bytes offset c).1.sent
          ≡ (c.sent ++ request_header nbd_cmd_write (c.handle + 1) offset (length bytes)) ++ bytes)
      × ((write bytes offset c).1.flushed ≡ false)
      × ((write bytes offset c).1.handle ≡ c.handle + 1)
      × (flat (write bytes offset c).1.incoming ≡ rest)
  unfolding write check_alignment sendall written
  write_lem =
      let reply =
        simple_reply_facts nbd_simple_reply_magic 0 (c.handle + 1) (omega arith) (omega arith) hh []
          rest written n f in
      ground (
        arith,
        send_request_header_lem nbd_cmd_write offset (length bytes) (record c { flushed = false })
            (omega arith) ho hl hh,
        reply.0,
        reply.1,
        reply.2,
      )

module _ (bytes rest : Bytes) (offset : ℕ) (c : Client) (n : NoEmpty c.incoming)
    (f : flat c.incoming ≡ simple_header nbd_simple_reply_magic 0 (c.handle + 1) ++ (bytes ++ rest))
    (plain : c.structured_reply ≡ false) (aligned : offset % 512 ≡ 0)
    (whole : length bytes % 512 ≡ 0) (ho : offset < 2 ^ 64) (hl : length bytes < 2 ^ 32)
    (hh : c.handle + 1 < 2 ^ 64) where
  -- An aligned read whose sizes fit, without structured replies and with an answer that reports no
  -- error, returns exactly the bytes of the answer, sends one request, and takes exactly the answer.
  pub read_lem :
      ((read offset (length bytes) c).0 ≡ ok (bytes_read bytes))
      × ((read offset (length bytes) c).1.sent
          ≡ c.sent ++ request_header nbd_cmd_read (c.handle + 1) offset (length bytes))
      × (flat (read offset (length bytes) c).1.incoming ≡ rest)
  unfolding read check_alignment
  read_lem =
      let asked = requested nbd_cmd_read offset (length bytes) c in
      let reply =
        simple_reply_facts nbd_simple_reply_magic 0 (c.handle + 1) (omega arith) (omega arith) hh
          bytes rest asked n f in
      ground (
        arith,
        send_request_header_lem nbd_cmd_read offset (length bytes) c (omega arith) ho hl hh,
        reply.0,
        reply.1,
        reply.2,
      )
