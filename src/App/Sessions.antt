-- ===== src/App/Sessions.antt =====
-- Sessions of `FPServer` (src/fp/app/server.py). Whoever takes part has to be a registered entity, and
-- each change is announced on the session's event stream.

use foundation_protocol.Prelude.{String, ◌==◌, if◌then◌else◌, Option, none, some, List, []}
use foundation_protocol.Dict
use foundation_protocol.Dict.{Dict}
use foundation_protocol.Stores.Paging.{sort_keys}
use foundation_protocol.Protocol.Errors.{pure, ◌>>=◌, ◌>>◌, gets}
use foundation_protocol.Protocol.Json.{Json, null, str, arr, Fields, end, field}
use foundation_protocol.Protocol.Models.Sessions.{
  Session, SessionBudget, SessionState, created, active, paused, closing, closed, failed,
}
use foundation_protocol.Runtime.Sessions
use foundation_protocol.App.State.{
  Environment, Stores, Call, new_id, utc_now, count, emit_event, session_event, in_sessions,
  require_entity, require_entities,
}
use foundation_protocol.App.Graph.{texts_json}

-- `SessionState(...).value`
unfoldable pub state_value : SessionState → String
state_value created = "created"
state_value active = "active"
state_value paused = "paused"
state_value closing = "closing"
state_value closed = "closed"
state_value failed = "failed"

abbrev pub or_null : Option String → Json
or_null none = null
or_null (some text) = str text

-- `updated.roles.get(entity_id, set())`
abbrev roles_of : Session → String → List String
roles_of session entity_id = elim (Dict.get session.roles entity_id) [
  | none ↦ []
  | some roles ↦ roles
]

module _ (env : Environment) (stores : Stores) where
  -- `given or _new_id(prefix)`
  unfoldable pub given_or_new : Option String → String → Call env stores String
  unfolding new_id
  given_or_new none prefix = new_id env stores prefix
  given_or_new (some id) prefix = if id == "" then new_id env stores prefix else pure id

  -- `_emit_event` of the server itself
  abbrev pub announce : String → String → Fields → Call env stores (Unit {0})
  announce event_type session_id payload = do
    server ← gets (λ s. s.server_entity_id)
    emit_event env stores (session_event env stores event_type session_id server payload)
    pure tt

  -- `sessions_create`, behind the checks and the choice of the id
  unfoldable pub open_session :
      List String
      → Dict (List String)
      → Option String
      → Option SessionBudget
      → String
      → Call env stores Session
  unfolding utc_now Sessions.create count emit_event
  open_session participants roles policy_ref budget id = do
    created_at ← utc_now env stores
    updated_at ← utc_now env stores
    session ← in_sessions env stores (
        Sessions.create stores.sessions (record {
          session_id = id;
          participants = participants;
          roles = roles;
          policy_ref = policy_ref;
          budget = budget;
          metadata = none;
          created_at = created_at;
          updated_at = updated_at;
        }))
    count env stores "sessions.create"
    announce "session.created" session.session_id
        (field "participants" (arr (texts_json (sort_keys session.participants))) end)
    pure session

  unfoldable pub sessions_create :
      List String
      → Dict (List String)
      → Option String
      → Option SessionBudget
      → Option String
      → Call env stores Session
  unfolding require_entities given_or_new open_session
  sessions_create participants roles policy_ref budget session_id = do
    require_entities env stores participants
    id ← given_or_new session_id "sess-"
    open_session participants roles policy_ref budget id

  unfoldable pub sessions_join : String → String → Option (List String) → Call env stores Session
  unfolding require_entity utc_now Sessions.join emit_event
  sessions_join session_id entity_id roles = do
    require_entity env stores entity_id
    now ← utc_now env stores
    updated ← in_sessions env stores (Sessions.join stores.sessions session_id entity_id roles now)
    emit_event env stores (
        session_event env stores "session.joined" session_id entity_id
          (field "roles" (arr (texts_json (sort_keys (roles_of updated entity_id)))) end))
    pure updated

  -- An absent patch and an empty one are the same.
  unfoldable pub sessions_update :
      String
      → Option String
      → Option SessionBudget
      → Option SessionState
      → Dict (List String)
      → Call env stores Session
  unfolding require_entities utc_now Sessions.update emit_event state_value
  sessions_update session_id policy_ref budget state roles_patch = do
    require_entities env stores (Dict.keys roles_patch)
    now ← utc_now env stores
    updated ←
        in_sessions env stores
          (Sessions.update stores.sessions session_id policy_ref budget state roles_patch now)
    announce "session.updated" session_id (field "state" (str (state_value updated.state)) end)
    pure updated

  unfoldable pub sessions_leave : String → String → Call env stores Session
  unfolding utc_now Sessions.leave emit_event
  sessions_leave session_id entity_id = do
    now ← utc_now env stores
    updated ← in_sessions env stores (Sessions.leave stores.sessions session_id entity_id now)
    emit_event env stores (session_event env stores "session.left" session_id entity_id end)
    pure updated

  unfoldable pub sessions_close : String → Option String → Call env stores Session
  unfolding utc_now Sessions.close emit_event
  sessions_close session_id reason = do
    now ← utc_now env stores
    session ← in_sessions env stores (Sessions.close stores.sessions session_id reason now)
    announce "session.closed" session_id (field "reason" (or_null reason) end)
    pure session
