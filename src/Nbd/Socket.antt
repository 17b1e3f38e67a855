-- ===== src/Nbd/Socket.antt =====
-- ocaml/vhd-tool/scripts/python_nbd_client.py: `_recvall`, over a socket that hands out what has
-- arrived in pieces of its own choice.
pub mod Laws
use xen_api.Base.{
  ℕ, zero, suc, ◌-◌, ◌≡◌, List, [], ◌∷◌, ◌++◌, ◌==◌, if◌then◌else◌, length, take, drop,
}
use xen_api.Base.Bytes.{Bytes}
use xen_api.Base.Exec.{Result, ok, err, continue}
use xen_api.Nbd.Types.{Client, Nbd, Error, eof}

-- The bytes of the stream.
abbrev pub flat : List Bytes → Bytes
flat [] = []
flat (seg ∷ segs) = seg ++ flat segs

-- What is left of a segment goes back to the front of the socket's buffer.
unfoldable pub put_back : Bytes → List Bytes → List Bytes
put_back [] segs = segs
put_back (b ∷ bs) segs = (b ∷ bs) ∷ segs

-- `recv_into(view, n)`: at most `n` bytes of the first segment, and none at the end of the stream
unfoldable pub recv_into : ℕ → List Bytes → Bytes × List Bytes
unfolding put_back
recv_into n [] = ([], [])
recv_into n (seg ∷ segs) = (take n seg, put_back (drop n seg) segs)

abbrev pub prepend : Bytes → Result Error Bytes × List Bytes → Result Error Bytes × List Bytes
prepend got (ok bs, segs) = (ok (got ++ bs), segs)
prepend got (err e, segs) = (err e, segs)

-- `while bytes_left: ...`, one round of fuel for each byte at the most
unfoldable pub recv_loop : ℕ → ℕ → List Bytes → Result Error Bytes × List Bytes
unfolding recv_into
recv_loop zero bytes_left segs = (ok [], segs)
recv_loop (suc fuel) bytes_left segs =
    let (received, segs') = recv_into bytes_left segs in
    let rest = recv_loop fuel (bytes_left - length received) segs' in
    if bytes_left == 0
    then (ok [], segs)
    else if length received == 0
    then (err eof, segs')
    else prepend received rest

unfoldable pub recvall : ℕ → Nbd Bytes
unfolding recv_loop
recvall n s = let (r, segs) = recv_loop n n s.incoming in (r, record s { incoming = segs })
