-- ===== src/App/Steps.antt =====
-- The server as a machine: the steps that its calls make on the stores whose objects refer to each
-- other, each with what has been checked before it.
use foundation_protocol.Prelude.{String, ◌≡◌, List, true, some}
use foundation_protocol.Dict
use foundation_protocol.Dict.{Dict}
use foundation_protocol.TextSet.{contains}
use foundation_protocol.Protocol.Models.Entities.{Entity}
use foundation_protocol.Protocol.Models.Organizations.{Organization}
use foundation_protocol.Protocol.Models.Economy.{Receipt, Settlement}
use foundation_protocol.Stores.Stored.{Stored}
use foundation_protocol.Graph.Memberships
use foundation_protocol.Graph.Memberships.{MembershipCall}
use foundation_protocol.Runtime.Sessions
use foundation_protocol.Runtime.Sessions.{
  SessionCall, create_call, join_call, leave_call, update_call, close_call,
}
use foundation_protocol.Runtime.Activities
use foundation_protocol.Runtime.Activities.{NewActivity, ActivityCall, start_call}
use foundation_protocol.App.State.{Stores}
use foundation_protocol.App.Quiet.{Core}
use foundation_protocol.Economy.Services.{confirm}

module _ (stores : Stores) where
  -- All the entities of a list are registered.
  abbrev pub AllKnown : stores.entities.State → List String → Type 0
  AllKnown entities es = (e : String) → contains es e ≡ true → Stored stores.entities entities e

  -- What the server checks before a call of the session engine.
  abbrev pub Admits : stores.entities.State → SessionCall → Type 0
  Admits entities (create_call n) = AllKnown entities n.participants
  Admits entities (join_call _ entity_id _ _) = Stored stores.entities entities entity_id
  Admits entities (update_call _ _ _ _ patch _) = AllKnown entities (Dict.keys patch)
  Admits entities (leave_call _ _ _) = Unit
  Admits entities (close_call _ _ _) = Unit

  -- What the server checks before a call of the activity engine.
  abbrev pub Allows : Core stores → ActivityCall → Type 0
  Allows c (start_call n) =
      Stored stores.sessions c.sessions n.session_id
      × Stored stores.entities c.entities n.owner_entity_id
      × Stored stores.entities c.entities n.initiator_entity_id
  Allows c _ = Unit

  pub data Step : Core stores → Core stores → Type 0 where
    stay : {a b : Core stores} → b ≡ a → Step a b
    register :
        {a b : Core stores} (e : Entity)
        → b ≡ record a { entities = stores.entities.put a.entities e }
        → Step a b
    found :
        {a b : Core stores} (o : Organization)
        → b ≡ record a {
          entities = stores.entities.put a.entities o.entity;
          organizations = stores.organizations.put a.organizations o;
        }
        → Step a b
    membership :
        {a b : Core stores} (c : MembershipCall)
        → b ≡ record a {
          memberships =
              (Memberships.run stores.organizations stores.memberships a.organizations c
                a.memberships).1;
        }
        → Step a b
    session :
        {a b : Core stores} (c : SessionCall)
        → Admits a.entities c
        → b ≡ record a { sessions = (Sessions.run stores.sessions c a.sessions).1 }
        → Step a b
    activity :
        {a b : Core stores} (c : ActivityCall)
        → Allows a c
        → b ≡ record a { activities = (Activities.run stores.activities c a.activities).1 }
        → Step a b
    issue :
        {a b : Core stores} (r : Receipt)
        → b ≡ record a { receipts = stores.receipts.put a.receipts r }
        → Step a b
    settle :
        {a b : Core stores} (t : Settlement)
        → ((r : String) → contains t.receipt_refs r ≡ true → Stored stores.receipts a.receipts r)
        → b ≡ record a { settlements = stores.settlements.put a.settlements t }
        → Step a b
    confirmed :
        {a b : Core stores} (id : String) (t : Settlement)
        → stores.settlements.get a.settlements id ≡ some t
        → b ≡ record a { settlements = stores.settlements.put a.settlements (confirm t) }
        → Step a b

  -- Any number of steps.
  pub data Steps : Core stores → Core stores → Type 0 where
    done : {a : Core stores} → Steps a a
    step : {a b c : Core stores} → Step a b → Steps b c → Steps a c

  pub Steps-trans : {a b c : Core stores} → Steps a b → Steps b c → Steps a c
  Steps-trans done t = t
  Steps-trans (step h rest) t = step h (Steps-trans rest t)
