-- ===== src/Nbd/Commands/Closing.antt =====
-- `flush` and `close` of python_nbd_client.py.
use xen_api.Base.{ℕ, ◌+◌, ◌≡◌, refl, Bool, true, false, some, arith, not, ◌&&◌, if◌then◌else◌, ◌==◌}
use xen_api.Base.Bytes.{Bytes}
use xen_api.Base.Exec.{Result, ok, err, pure, gets, guard, modify, continue, ◌>>=◌}
use xen_api.Nbd.Types.{Client, nbd_cmd_flush, Error, Client, Nbd, sendall, pack, unexpected_handle}
use xen_api.Nbd.Socket.{recvall}
use xen_api.Nbd.Options.{send_option}
use xen_api.Nbd.Replies.{parse_simple_reply, check_handle}
use xen_api.Nbd.Commands.{send_request_header, need_flush, flush, disconnect, close}

-- The fields that `close` decides by.
record Kept (c d : Client) : Type 0 where
  flushed : d.flushed ≡ c.flushed
  closed : d.closed ≡ c.closed
  phase : d.transmission_phase ≡ c.transmission_phase

record Keeps {A : Type 0} (m : Nbd A) : Type 0 where
  at : (c : Client) → Kept c (m c).1

Kept-trans : (c d e : Client) → Kept c d → Kept d e → Kept c e
Kept-trans c d e p q = record {
  flushed = cc (p.flushed, q.flushed);
  closed = cc (p.closed, q.closed);
  phase = cc (p.phase, q.phase);
}

Kept-refl : (c : Client) → Kept c c
Kept-refl c = record { flushed = refl; closed = refl; phase = refl }

module _ {A : Type 0} where
  pure-Keeps : (a : A) → Keeps (pure a)
  pure-Keeps a = record { at = Kept-refl }

  gets-Keeps : (f : Client → A) → Keeps (gets f)
  gets-Keeps f = record { at = Kept-refl }

guard-Keeps : (b : Bool) (e : Error) → Keeps (guard b e)
guard-Keeps true e = record { at = Kept-refl }
guard-Keeps false e = record { at = Kept-refl }

recvall-Keeps : (n : ℕ) → Keeps (recvall n)
unfolding recvall
recvall-Keeps n = record { at = λ c. record { flushed = refl; closed = refl; phase = refl } }

check_handle-Keeps : (handle : ℕ) → Keeps (check_handle handle)
unfolding check_handle
check_handle-Keeps handle = record {
  at = λ c. (guard-Keeps (handle == c.handle) (unexpected_handle c.handle handle)).at c;
}

sendall-Keeps : (bytes : Bytes) → Keeps (sendall bytes)
unfolding sendall
sendall-Keeps bytes = record { at = λ c. record { flushed = refl; closed = refl; phase = refl } }

pack-Keeps : (w n : ℕ) → Keeps (pack w n)
unfolding pack
pack-Keeps w n = record {
  at = λ c. record { flushed = ground arith; closed = ground arith; phase = ground arith };
}

count-Keeps : Keeps (modify (λ s. record s { handle = s.handle + 1 }))
count-Keeps = record { at = λ c. record { flushed = refl; closed = refl; phase = refl } }

option-Keeps : (option : ℕ) → Keeps (modify (λ s. record s { last_sent_option = some option }))
option-Keeps option = record { at = λ c. record { flushed = refl; closed = refl; phase = refl } }

module _ {A B : Type 0} where
  go_on :
      (f : A → Nbd B) (r : Result Error A × Client)
      → ((a : A) → Keeps (f a))
      → Kept r.1 (continue f r.0 r.1).1
  go_on f (ok a, d) p = (p a).at d
  go_on f (err e, d) p = Kept-refl d

  bind-Keeps : (m : Nbd A) (f : A → Nbd B) → Keeps m → ((a : A) → Keeps (f a)) → Keeps (m >>= f)
  bind-Keeps m f p q = record {
    at = λ c. Kept-trans c (m c).1 ((m >>= f) c).1 (p.at c) (go_on f (m c) q);
  }

module _ {A : Type 0} where
  if-Keeps : (b : Bool) (m k : Nbd A) → Keeps m → Keeps k → Keeps (if b then m else k)
  if-Keeps true m k p q = p
  if-Keeps false m k p q = q

ruleset keeping = (
  pure-Keeps, gets-Keeps, guard-Keeps, recvall-Keeps, check_handle-Keeps, sendall-Keeps, pack-Keeps,
  count-Keeps, option-Keeps, bind-Keeps, if-Keeps,
)

reply-Keeps : (n : ℕ) → Keeps (parse_simple_reply n)
unfolding parse_simple_reply
reply-Keeps n = search keeping depth 20

header-Keeps : (ty offset len : ℕ) → Keeps (send_request_header ty offset len)
unfolding send_request_header
header-Keeps ty offset len = search keeping depth 20

disconnect-Keeps : Keeps disconnect
unfolding disconnect send_option
disconnect-Keeps = search (keeping, header-Keeps) depth 20

-- A flush that returns leaves the connection flushed.
record Flushed (c d : Client) : Type 0 where
  flushed : d.flushed ≡ true
  closed : d.closed ≡ c.closed
  phase : d.transmission_phase ≡ c.transmission_phase

flush-Flushed : (c : Client) (b : Bool) → (flush c).0 ≡ ok b → Flushed c (flush c).1
unfolding flush need_flush
flush-Flushed c b h =
    let sent = (header-Keeps nbd_cmd_flush 0 0).at c in
    let answered = (reply-Keeps 0).at (send_request_header nbd_cmd_flush 0 0 c).1 in
    ground (arith, sent.closed, sent.phase, answered.closed, answered.phase)

-- What decides that `close` has nothing left to do.
done :
    (c : Client)
    → c.closed ≡ true
    → (c.transmission_phase && not c.flushed) ≡ false
    → close c ≡ (ok tt, c)
unfolding close
done c h k = ground arith

closes : (c : Client) → (close c).0 ≡ ok tt → (close c).1.closed ≡ true
unfolding close
closes c h = ground arith

settles :
    (c : Client)
    → (close c).0 ≡ ok tt
    → ((close c).1.transmission_phase && not (close c).1.flushed) ≡ false
unfolding close
settles c h =
    let flushed = flush-Flushed c in
    let early = disconnect-Keeps.at c in
    let late = disconnect-Keeps.at (flush c).1 in
    ground
      (arith, flushed true, flushed false, early.flushed, early.phase, late.flushed, late.phase)

-- A `close` that returns has closed the connection with no write unflushed, and `close` again sends
-- nothing and changes nothing.
pub close_idempotent :
    (c : Client)
    → (close c).0 ≡ ok tt
    → ((close c).1.closed ≡ true) × (close (close c).1 ≡ (ok tt, (close c).1))
close_idempotent c h = (closed, done (close c).1 closed settled)
  where
    closed : (close c).1.closed ≡ true
    closed = closes c h

    settled : ((close c).1.transmission_phase && not (close c).1.flushed) ≡ false
    settled = settles c h
