-- ===== src/Nbd/Extents/Moves.antt =====
-- What the replies to get_nbd_extents.py do to its offset: they lead on, or have no bytes.
use xen_api.Base.{
  ℕ, zero, suc, ◌+◌, ◌-◌, ◌≤◌, ◌<◌, ◌≡◌, ◌≢◌, refl, Option, none, some, List, [], ◌∷◌, ◌⊎◌, inl,
  inr, min, ltb, leb, arith, Bool-cases, ◌==◌,
}
use xen_api.Base.Exec.{or_raise, guard, ◌>>=◌, ◌>>◌}
use xen_api.Nbd.Types.{
  protocol, key_error, received_error, unexpected_reply, attribute_error, diverged,
}
use xen_api.Nbd.Results.{Gives, pure-Gives, raise-Gives, if-Gives, then-Gives, bind-Gives}
use xen_api.Nbd.Replies.{Body, block_status, no_data, offset_data, offset_hole, error_chunk, Chunk}
use xen_api.Nbd.Progress.{guard-Progress, Progress, pure-Progress, raise-Progress, bind-Progress}
use xen_api.Nbd.Progress.Replies.{rules, protocol-ne, value_error-ne}
use xen_api.Nbd.Extents.{take_extents, process_reply, assert_one, status_of}
use xen_api.Nbd.Extents.Cover.{total, weaken-Gives}

-- A block status reply whose extents have no bytes at all
abbrev pub NoBytes : Chunk → Type 0
NoBytes reply = (id : ℕ) × (ds : List (ℕ × ℕ)) × (reply.body ≡ block_status id ds) × (total ds ≡ 0)

key_error-ne : key_error ≢ diverged
key_error-ne e = cc

received_error-ne : received_error ≢ diverged
received_error-ne e = cc

unexpected_reply-ne : unexpected_reply ≢ diverged
unexpected_reply-ne e = cc

attribute_error-ne : attribute_error ≢ diverged
attribute_error-ne e = cc

ruleset extent_rules = (
  rules, value_error-ne, key_error-ne, received_error-ne, unexpected_reply-ne, attribute_error-ne,
)

take-Progress : (end : ℕ) (ds : List (ℕ × ℕ)) (offset : ℕ) → Progress 0 (take_extents end ds offset)
unfolding take_extents
take-Progress end [] offset = pure-Progress ([], offset)
take-Progress end ((len, flags) ∷ []) offset = search extent_rules depth 20
take-Progress end ((len, flags) ∷ d ∷ ds) offset =
    bind-Progress 0 _ _ (guard-Progress (leb (offset + len) end) protocol protocol-ne) λ _.
      bind-Progress 0 _ _ (take-Progress end (d ∷ ds) (offset + len))
        λ r. pure-Progress ((len, flags) ∷ r.0, r.1)

pub process-Progress :
    (id end : ℕ) (reply : Chunk) (offset : ℕ) → Progress 0 (process_reply id end reply offset)
unfolding process_reply
process-Progress id end reply offset = search (extent_rules, take-Progress) depth 20

assert_one-Progress : {A : Type 0} (xs : List A) → Progress 0 (assert_one xs)
assert_one-Progress [] = raise-Progress protocol protocol-ne
assert_one-Progress (x ∷ []) = pure-Progress x
assert_one-Progress (x ∷ y ∷ xs) = raise-Progress protocol protocol-ne

-- Some extents lead on, or have no bytes, or start at the end.
abbrev Moves : ℕ → ℕ → List (ℕ × ℕ) → List (ℕ × ℕ) × ℕ → Type 0
Moves end offset ds r = (offset ≤ r.1) × ((offset < r.1) ⊎ ((total ds ≡ 0) ⊎ (end ≤ offset)))

further :
    (end offset len flags : ℕ) (ds es : List (ℕ × ℕ)) (r : List (ℕ × ℕ) × ℕ)
    → Moves end (offset + len) ds r
    → Moves end offset ((len, flags) ∷ ds) (es, r.1)
further end offset len flags ds es r (h, inl l) = (omega arith, inl (omega arith))
further end offset zero flags ds es r (h, inr (inl none_left)) =
    (omega arith, inr (inl (omega arith)))
further end offset (suc len) flags ds es r (h, inr (inl none_left)) =
    (omega arith, inl (omega arith))
further end offset zero flags ds es r (h, inr (inr there)) = (omega arith, inr (inr (omega arith)))
further end offset (suc len) flags ds es r (h, inr (inr there)) = (omega arith, inl (omega arith))

last-Moves :
    (end offset len flags : ℕ) (es : List (ℕ × ℕ))
    → Moves end offset ((len, flags) ∷ []) (es, offset + min len (end - offset))
last-Moves end offset zero flags es = (omega arith, inr (inl refl))
last-Moves end offset (suc len) flags es = elim (Bool-cases (ltb offset end)) [
  | inl before ↦ (omega arith, inl (ground arith))
  | inr behind ↦ (omega arith, inr (inr (ground arith)))
]

take-Moves :
    (end : ℕ) (ds : List (ℕ × ℕ)) (offset : ℕ)
    → Gives (Moves end offset ds) (take_extents end ds offset)
unfolding take_extents
take-Moves end [] offset =
    pure-Gives (Moves end offset []) ([], offset) (omega arith, inr (inl refl))
take-Moves end ((len, flags) ∷ []) offset =
    then-Gives (Moves end offset ((len, flags) ∷ [])) _ _ λ _.
      pure-Gives (Moves end offset ((len, flags) ∷ []))
        ((min len (end - offset), flags) ∷ [], offset + min len (end - offset))
        (last-Moves end offset len flags ((min len (end - offset), flags) ∷ []))
take-Moves end ((len, flags) ∷ d ∷ ds) offset =
    then-Gives (Moves end offset ((len, flags) ∷ d ∷ ds)) _ _ λ _.
      bind-Gives (Moves end (offset + len) (d ∷ ds)) (Moves end offset ((len, flags) ∷ d ∷ ds))
        (take_extents end (d ∷ ds) (offset + len)) _ (take-Moves end (d ∷ ds) (offset + len))
        λ r p.
          pure-Gives (Moves end offset ((len, flags) ∷ d ∷ ds)) _
            (further end offset len flags (d ∷ ds) ((len, flags) ∷ r.0) r p)

-- A reply from which extents are taken leads on, or has no bytes.
abbrev pub OnOrEmpty : ℕ → Chunk → List (ℕ × ℕ) × ℕ → Type 0
OnOrEmpty offset reply r = (offset < r.1) ⊎ NoBytes reply

status_of-body :
    (b : Body) (id : ℕ) (ds : List (ℕ × ℕ)) → status_of b ≡ some (id, ds) → b ≡ block_status id ds
status_of-body (block_status i es) id ds e = ground arith
status_of-body no_data id ds e = absurd (cc e)
status_of-body (offset_data o bs) id ds e = absurd (cc e)
status_of-body (offset_hole o l) id ds e = absurd (cc e)
status_of-body (error_chunk n t o) id ds e = absurd (cc e)

on_or_empty :
    (end offset id : ℕ) (ds : List (ℕ × ℕ)) (reply : Chunk) (r : List (ℕ × ℕ) × ℕ)
    → offset < end
    → reply.body ≡ block_status id ds
    → Moves end offset ds r
    → OnOrEmpty offset reply r
on_or_empty end offset id ds reply r l e (h, inl on) = inl on
on_or_empty end offset id ds reply r l e (h, inr (inl empty)) = inr (id, ds, e, empty)
on_or_empty end offset id ds reply r l e (h, inr (inr there)) = absurd (omega arith)

status-Moves :
    (id end : ℕ) (reply : Chunk) (offset : ℕ)
    → offset < end
    → (o : Option (ℕ × List (ℕ × ℕ))) → status_of reply.body ≡ o
    → Gives
        (OnOrEmpty offset reply)
        (or_raise o key_error >>= λ s. guard (s.0 == id) protocol >> take_extents end s.1 offset)
status-Moves id end reply offset l none e = record { at = λ c. tt }
status-Moves id end reply offset l (some (id', ds)) e = record {
  at = λ c.
      (then-Gives (OnOrEmpty offset reply) (guard (id' == id) protocol)
          (λ _. take_extents end ds offset)
          λ _.
            weaken-Gives (Moves end offset ds) (OnOrEmpty offset reply) (take_extents end ds offset)
              (λ r. on_or_empty end offset id' ds reply r l (status_of-body reply.body id' ds e))
              (take-Moves end ds offset)).at
        c;
}

pub process-Moves :
    (id end : ℕ) (reply : Chunk) (offset : ℕ)
    → offset < end
    → Gives (OnOrEmpty offset reply) (process_reply id end reply offset)
unfolding process_reply
process-Moves id end reply offset l =
    let status = status-Moves id end reply offset l (status_of reply.body) refl in
    search (raise-Gives, if-Gives, status) depth 20
