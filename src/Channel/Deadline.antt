-- ===== src/Channel/Deadline.antt =====
-- The deadlines of `Write`.
use httpadapter.Common.{
  ℕ, min, ◌≡◌, refl, ◌≢◌, ◌⊎◌, false, Option, none, some, arith, eq→==, le→ltb,
}
use httpadapter.Channel.{
  Deadlines, set_write_deadline, ChannelError, Wait, accepted, fires, set, write_deadline, write,
}

abbrev no_deadlines : Deadlines
no_deadlines = record { both = none; reading = none; writing = none }

-- `Write` goes by the deadline of `SetDeadline`, and by that of `SetWriteDeadline` only where this is
-- earlier: alone it has no effect, since Go's zero time is before all others. The read deadline
-- never matters.
pub write_deadline_lem :
    (t u : ℕ) (r w : Option ℕ)
    → (write_deadline (record { both = none; reading = r; writing = w }) ≡ 0)
      × (write_deadline (record { both = some t; reading = r; writing = none }) ≡ t)
      × (write_deadline (record { both = some t; reading = r; writing = some u }) ≡ min t u)
unfolding write_deadline
write_deadline_lem t u r none = (refl, refl, ground arith)
write_deadline_lem t u r (some v) = (rw (le→ltb v 0 (omega arith)), refl, ground arith)

write_deadline_zero : (d : Deadlines) → d.both ≡ none → write_deadline d ≡ 0
unfolding write_deadline
write_deadline_zero d e = ground arith

-- Where `SetDeadline` was not called, `SetWriteDeadline` on an open channel has no effect: a write
-- never times out, at whatever time, since it has no timer, and if the channel takes the bytes,
-- the write succeeds.
pub write_deadline_ignored :
    (d : Deadlines) (t now size : ℕ)
    → d.both ≡ none
    → let d' = (set set_write_deadline false t d).0 in
      (write d' now size fires ≡ none) × (write d' now size accepted ≡ some (size, none))
unfolding set write
write_deadline_ignored d t now size e =
    let z : write_deadline (record d { writing = some t }) ≡ 0 =
      write_deadline_zero (record d { writing = some t }) e in
    (
      rw (eq→== (write_deadline (record d { writing = some t })) 0 z),
      rw (eq→== (write_deadline (record d { writing = some t })) 0 z),
    )

-- A write reports all of its bytes or none of them, the latter with an error.
pub write_all_or_none :
    (d : Deadlines) (now size : ℕ) (w : Wait) (n : ℕ) (e : Option ChannelError)
    → write d now size w ≡ some (n, e)
    → ((n ≡ size) × (e ≡ none) × (w ≡ accepted)) ⊎ ((n ≡ 0) × (e ≢ none))
unfolding write
write_all_or_none d now size w n e h = ground arith
