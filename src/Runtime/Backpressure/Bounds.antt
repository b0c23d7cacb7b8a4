-- ===== src/Runtime/Backpressure/Bounds.antt =====
-- The window is never exceeded by a delivery, and an acknowledgement opens it again.
use foundation_protocol.Prelude.{
  ℕ, ◌+◌, ◌-◌, ◌≤◌, ◌<◌, String, ◌≡◌, not, ◌&&◌, none, arith, ◌==◌, eq_iff, ltb, if◌then◌else◌,
}
use foundation_protocol.Dict
use foundation_protocol.Dict.Laws.{get-put, get-set_default}
use foundation_protocol.Protocol.Errors.{err, fp_error, backpressure}
use foundation_protocol.Runtime.Backpressure.{
  Controller, configure_stream, window_of, outstanding_of, on_deliver, on_ack,
}

-- Every stream is within its window.
abbrev pub IsWithin : Controller → Type 0
IsWithin c = (stream_id : String) → outstanding_of c stream_id ≤ window_of c stream_id

-- A delivery that fits the window is added to the count of its own stream and of no other; one that
-- does not changes no count.
pub outstanding-on_deliver :
    (c : Controller) (stream_id other : String) (n : ℕ)
    → outstanding_of (on_deliver stream_id n c).1 other ≡ (
        if (stream_id == other)
          && not (ltb (window_of c stream_id) (outstanding_of c stream_id + n))
        then outstanding_of c other + n
        else outstanding_of c other)
unfolding on_deliver Dict.has
outstanding-on_deliver c stream_id other n = ground (
  arith,
  eq_iff stream_id other,
  get-set_default c.outstanding stream_id other 0,
  get-put c.outstanding stream_id other (outstanding_of c stream_id + n),
)

pub deliver-refused :
    (c : Controller) (stream_id : String) (n : ℕ)
    → window_of c stream_id < outstanding_of c stream_id + n
    → (on_deliver stream_id n c).0 ≡ err (fp_error backpressure)
unfolding on_deliver
deliver-refused c stream_id n h = ground arith

window-on_deliver :
    (c : Controller) (stream_id other : String) (n : ℕ)
    → window_of (on_deliver stream_id n c).1 other ≡ window_of c other
unfolding on_deliver
window-on_deliver c stream_id other n = ground arith

-- If the outstanding count of every stream is within its window, it still is after a delivery,
-- whether that is accepted or raises.
pub on_deliver-IsWithin :
    (c : Controller) (stream_id : String) (n : ℕ)
    → IsWithin c
    → IsWithin (on_deliver stream_id n c).1
on_deliver-IsWithin c stream_id n h other = ground (
  arith,
  outstanding-on_deliver c stream_id other n,
  window-on_deliver c stream_id other n,
  h other,
  eq_iff stream_id other,
)

pub outstanding-on_ack :
    (c : Controller) (stream_id other : String) (n : ℕ)
    → outstanding_of (on_ack stream_id n c) other
      ≡ (if stream_id == other then outstanding_of c other - n else outstanding_of c other)
unfolding on_ack
outstanding-on_ack c stream_id other n = ground (
  arith,
  eq_iff stream_id other,
  get-put c.outstanding stream_id other (outstanding_of c stream_id - n),
)

pub on_ack-IsWithin :
    (c : Controller) (stream_id : String) (n : ℕ) → IsWithin c → IsWithin (on_ack stream_id n c)
on_ack-IsWithin c stream_id n h other =
    unfold window_of on_ack in ground (arith, outstanding-on_ack c stream_id other n, h other)

-- Acknowledging as many events as an accepted delivery had restores the outstanding count of every
-- stream.
pub on_ack-on_deliver :
    (c : Controller) (stream_id other : String) (n : ℕ)
    → outstanding_of c stream_id + n ≤ window_of c stream_id
    → outstanding_of (on_ack stream_id n (on_deliver stream_id n c).1) other
      ≡ outstanding_of c other
on_ack-on_deliver c stream_id other n h = ground (
  arith,
  outstanding-on_ack (on_deliver stream_id n c).1 stream_id other n,
  outstanding-on_deliver c stream_id other n,
)

pub configure_stream-IsWithin :
    (c : Controller) (stream_id : String)
    → IsWithin c
    → IsWithin (configure_stream stream_id none c).1
configure_stream-IsWithin c stream_id h other =
    unfold configure_stream window_of outstanding_of Dict.has in
    ground (
      arith,
      get-set_default c.outstanding stream_id other 0,
      get-set_default c.windows stream_id other c.default_window,
      h other,
      eq_iff stream_id other,
    )
