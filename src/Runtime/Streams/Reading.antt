-- ===== src/Runtime/Streams/Reading.antt =====
-- One `read` of a stream, where nothing is pending, where the window is exceeded and where it is not.
use foundation_protocol.Prelude.{
  ℕ, suc, ◌+◌, ◌≤◌, ◌<◌, String, ◌≡◌, some, List, [], ◌∷◌, arith, length,
}
use foundation_protocol.Dict
use foundation_protocol.Protocol.Errors.{ok, err, fp_error, backpressure}
use foundation_protocol.Protocol.Models.Events.{FpEvent}
use foundation_protocol.Runtime.Backpressure.{window_of, outstanding_of, on_deliver}
use foundation_protocol.Runtime.Streams.{
  StreamState, EventEngine, get_state, set_cursor, pending, last_id, deliver, read,
}

module _ (engine : EventEngine) (stream_id : String) (state : StreamState)
    (here : Dict.get engine.stream_states stream_id ≡ some state) (n : ℕ) where
  pub read_nothing :
      pending engine state (suc n) ≡ [] → read stream_id (suc n) engine ≡ (ok [], engine)
  unfolding read get_state deliver
  read_nothing p = ground (arith, here, p)

  -- A read of a known stream whose pending events do not fit the window raises BACKPRESSURE and
  -- leaves the states of all streams as they were.
  pub read_over :
      (e : FpEvent) (es : List FpEvent)
      → pending engine state (suc n) ≡ e ∷ es
      → window_of engine.backpressure stream_id
        < outstanding_of engine.backpressure stream_id + length (e ∷ es)
      → ((read stream_id (suc n) engine).0 ≡ err (fp_error backpressure))
        × ((read stream_id (suc n) engine).1.stream_states ≡ engine.stream_states)
  unfolding read get_state deliver on_deliver
  read_over e es p over = ground (arith, here, p)

  module _ (e : FpEvent) (es : List FpEvent) (p : pending engine state (suc n) ≡ e ∷ es)
      (fits : outstanding_of engine.backpressure stream_id + length (e ∷ es)
        ≤ window_of engine.backpressure stream_id) where
    pub read_within : read stream_id (suc n) engine ≡ (
      ok (e ∷ es),
      set_cursor stream_id state (last_id (e ∷ es)) (record engine {
        backpressure = (on_deliver stream_id (length (e ∷ es)) engine.backpressure).1;
      }),
    )
    unfolding read get_state deliver on_deliver set_cursor
    read_within = ground (arith, here, p)
