-- ===== src/Runtime/Backpressure.antt =====
-- src/fp/runtime/backpressure.py: how many delivered events of each stream are not acknowledged yet.
pub mod Bounds
use foundation_protocol.Prelude.{
  ℕ, zero, suc, ◌+◌, ◌-◌, String, Option, none, some, [], ltb, if◌then◌else◌,
}
use foundation_protocol.Dict
use foundation_protocol.Dict.{Dict}
use foundation_protocol.Protocol.Errors.{
  Result, ok, err, Exec, fp_error, invalid_argument, backpressure,
}

pub record Controller : Type 0 where
  pub default_window : ℕ
  pub outstanding : Dict ℕ
  pub windows : Dict ℕ

-- `__init__`; zero stands for `default_window <= 0`
unfoldable pub init_controller : ℕ → Result Controller
init_controller zero = err (fp_error invalid_argument)
init_controller (suc n) = ok (record { default_window = suc n; outstanding = []; windows = [] })

-- `d.get(key, default)`
abbrev pub get_or : Dict ℕ → String → ℕ → ℕ
get_or d key default = elim (Dict.get d key) [ none ↦ default | some n ↦ n ]

unfoldable pub configure_stream : String → Option ℕ → Exec Controller (Unit {0})
configure_stream stream_id none c = (
  ok tt,
  record c {
    windows = Dict.set_default c.windows stream_id c.default_window;
    outstanding = Dict.set_default c.outstanding stream_id 0;
  },
)
configure_stream stream_id (some zero) c = (err (fp_error invalid_argument), c)
configure_stream stream_id (some (suc n)) c = (
  ok tt,
  record c {
    windows = Dict.put c.windows stream_id (suc n);
    outstanding = Dict.set_default c.outstanding stream_id 0;
  },
)

unfoldable pub window_of : Controller → String → ℕ
window_of c stream_id = get_or c.windows stream_id c.default_window

-- `outstanding`
unfoldable pub outstanding_of : Controller → String → ℕ
outstanding_of c stream_id = get_or c.outstanding stream_id 0

-- The read of the `defaultdict` leaves a zero behind, also where the method raises.
unfoldable pub on_deliver : String → ℕ → Exec Controller (Unit {0})
unfolding window_of outstanding_of
on_deliver stream_id delivered c =
    let total = outstanding_of c stream_id + delivered in
    if ltb (window_of c stream_id) total
    then (
      err (fp_error backpressure),
      record c { outstanding = Dict.set_default c.outstanding stream_id 0 },
    )
    else (ok tt, record c { outstanding = Dict.put c.outstanding stream_id total })

-- `max(0, current - ack_count)` is the subtraction of natural numbers.
unfoldable pub on_ack : String → ℕ → Controller → Controller
unfolding outstanding_of
on_ack stream_id acked c = record c {
  outstanding = Dict.put c.outstanding stream_id (outstanding_of c stream_id - acked);
}
