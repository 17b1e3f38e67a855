-- ===== src/Nbd/Replies/ErrorOffset.antt =====
-- The offset of an error chunk in python_nbd_client.py.
use xen_api.Base.{
  ℕ, ◌<◌, ◌^◌, ◌≡◌, refl, ◌∙◌, false, none, ◌++◌, arith, length, ◌==◌, length-append,
}
use xen_api.Base.Bytes.{Bytes, encode, length-encode}
use xen_api.Base.Utf8.{Text}
use xen_api.Base.Exec.{pure, ◌>>=◌, ◌>>◌}
use xen_api.Nbd.Types.{
  Client, nbd_structured_reply_magic, nbd_reply_type_error_offset, Client, assert_protocol,
}
use xen_api.Nbd.Socket.{flat}
use xen_api.Nbd.Socket.Laws.{NoEmpty, skip, recvall-front}
use xen_api.Nbd.Options.{field}
use xen_api.Nbd.Options.Fields.{field-skip, field-front}
use xen_api.Nbd.Replies.{
  check_handle, Body, Chunk, handle_block_status_reply, handle_data_reply, handle_hole_reply,
  error_offset, handle_structured_reply_error, parse_body, parse_structured_reply_chunk,
  error_chunk,
}
use xen_api.Nbd.Results.{Gives, Ensures, pure-Gives, raise-Gives, if-Gives, bind-Gives, then-Gives}

-- No offset, whatever the kind of chunk.
abbrev pub NoErrorOffset : Body → Type 0
NoErrorOffset (error_chunk errno message offset) = offset ≡ none
NoErrorOffset _ = Unit

-- Sixteen bits never hold the value that the code gives to NBD_REPLY_TYPE_ERROR_OFFSET.
no_offset :
    (reply_type : ℕ) (view : Bytes)
    → reply_type < 2 ^ 16
    → Gives (λ o. o ≡ none) (error_offset reply_type view)
unfolding error_offset
no_offset reply_type view h = rw other (pure-Gives (λ o. o ≡ none) none refl)
  where
    other : (reply_type == nbd_reply_type_error_offset) ≡ false
    other = ground arith

with_offset :
    (reply_type errno : ℕ) (message : Text) (view : Bytes)
    → reply_type < 2 ^ 16
    → Gives NoErrorOffset
        (error_offset reply_type view >>= λ offset. pure (error_chunk errno message offset))
with_offset reply_type errno message view h =
    bind-Gives (λ o. o ≡ none) NoErrorOffset (error_offset reply_type view)
      (λ offset. pure (error_chunk errno message offset)) (no_offset reply_type view h)
      λ offset e. pure-Gives NoErrorOffset (error_chunk errno message offset) e

module _ (reply_type len : ℕ) (h : reply_type < 2 ^ 16) where
  error-Gives : Gives NoErrorOffset (handle_structured_reply_error reply_type len)
  unfolding handle_structured_reply_error
  error-Gives = search (then-Gives, with_offset) depth 20

  body-Gives : (flags : ℕ) → Gives NoErrorOffset (parse_body flags reply_type len)
  unfolding parse_body handle_block_status_reply handle_data_reply handle_hole_reply
  body-Gives flags = search (pure-Gives, raise-Gives, if-Gives, then-Gives, error-Gives) depth 20

-- The header of a chunk.
abbrev pub chunk_header : ℕ → ℕ → ℕ → ℕ → ℕ → Bytes
chunk_header magic flags reply_type handle len =
    encode 4 magic ++ (encode 2 flags ++ (encode 2 reply_type ++ (encode 8 handle ++ encode 4 len)))

with_body :
    (flags reply_type len : ℕ)
    → reply_type < 2 ^ 16
    → Gives
        (λ (k : Chunk). NoErrorOffset k.body)
        (parse_body flags reply_type len >>= λ body.
          pure (record { flags = flags; reply_type = reply_type; data_length = len; body = body }))
with_body flags reply_type len h =
    bind-Gives NoErrorOffset (λ (k : Chunk). NoErrorOffset k.body) (parse_body flags reply_type len)
      _ (body-Gives reply_type len h flags) (λ body e. record { at = λ c. e })

after_header :
    (reply : Bytes)
    → field 6 2 reply < 2 ^ 16
    → Gives
        (λ (k : Chunk). NoErrorOffset k.body)
        (assert_protocol (field 0 4 reply == nbd_structured_reply_magic)
          >> (check_handle (field 8 8 reply)
              >> (parse_body (field 4 2 reply) (field 6 2 reply) (field 16 4 reply) >>= λ body.
                  pure (record {
                    flags = field 4 2 reply;
                    reply_type = field 6 2 reply;
                    data_length = field 16 4 reply;
                    body = body;
                  }))))
after_header reply h = search (then-Gives, with_body) depth 20

module _ (magic flags reply_type handle len : ℕ) (ht : reply_type < 2 ^ 16) (rest : Bytes)
    (c : Client) (n : NoEmpty c.incoming)
    (f : flat c.incoming ≡ chunk_header magic flags reply_type handle len ++ rest) where
  chunk_length : length (chunk_header magic flags reply_type handle len) ≡ 20
  chunk_length = omega (
    arith,
    length-append (encode 4 magic)
        (encode 2 flags ++ (encode 2 reply_type ++ (encode 8 handle ++ encode 4 len))),
    length-append (encode 2 flags) (encode 2 reply_type ++ (encode 8 handle ++ encode 4 len)),
    length-append (encode 2 reply_type) (encode 8 handle ++ encode 4 len),
    length-append (encode 8 handle) (encode 4 len),
    length-encode 4 magic,
    length-encode 2 flags,
    length-encode 2 reply_type,
    length-encode 8 handle,
    length-encode 4 len,
  )

  chunk_type : field 6 2 (chunk_header magic flags reply_type handle len) ≡ reply_type
  chunk_type =
      field-skip 4 magic _ 6 2 2 refl
      ∙ field-skip 2 flags _ 2 0 2 refl
      ∙ field-front 2 reply_type _ ht

  -- Whatever chunk starts a stream of segments none of which is empty, one of type "error with offset"
  -- (0x8002) included, a success never carries the offset of an error.
  pub error_offset_lost :
      Ensures (λ (k : Chunk). NoErrorOffset k.body) (parse_structured_reply_chunk c)
  unfolding parse_structured_reply_chunk
  error_offset_lost =
      let first =
        recvall-front 20 c (chunk_header magic flags reply_type handle len) rest n chunk_length f in
      rw first.0 (
        (after_header (chunk_header magic flags reply_type handle len) (rw chunk_type ht)).at
          (skip 20 c))
