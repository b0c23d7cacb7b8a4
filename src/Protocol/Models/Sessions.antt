-- ===== src/Protocol/Models/Sessions.antt =====
-- Sessions: src/fp/protocol/models.py, `SessionState`, `SessionBudget` and `Session`.
use foundation_protocol.Prelude.{ℕ, String, Option, List, is_empty}
use foundation_protocol.Dict.{Dict}
use foundation_protocol.Protocol.Errors.{Result, ok, invalid_argument, check}
use foundation_protocol.Protocol.Json.{Fields}
use foundation_protocol.Protocol.Models.Signed.{ℤ, some_negative, require_non_empty}
use foundation_protocol.Protocol.Models.Organizations.{DelegationSpendLimit}

pub data SessionState : Type 0 where
  created active paused closing closed failed : SessionState

pub record SessionBudget : Type 0 where
  pub spend_limit : Option DelegationSpendLimit
  pub token_limit : Option ℤ

unfoldable pub init_session_budget : SessionBudget → Result SessionBudget
init_session_budget b = check (some_negative b.token_limit) invalid_argument (ok b)

pub record Session : Type 0 where
  pub session_id : String
  pub participants : List String
  pub roles : Dict (List String)
  pub state : SessionState
  pub policy_ref : Option String
  pub budget : SessionBudget
  pub created_at : ℕ
  pub updated_at : ℕ
  pub metadata : Fields

unfoldable pub init_session : Session → Result Session
unfolding require_non_empty
init_session s = require_non_empty s.session_id (
    check (is_empty s.participants) invalid_argument
      (check (is_empty s.roles) invalid_argument (ok s)))
