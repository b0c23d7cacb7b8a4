-- ===== src/App/Links/Invariant.antt =====
-- No step of the server leaves a reference without its object.
use foundation_protocol.Prelude.{String, ◌≡◌, true}
use foundation_protocol.TextSet.{contains}
use foundation_protocol.Protocol.Models.Economy.{Settlement}
use foundation_protocol.Stores.Stored.{Stored, AllStored, put-Stored, put-AllStored}
use foundation_protocol.Runtime.Sessions.Calls
use foundation_protocol.Runtime.Activities.Calls as ActivityCalls
use foundation_protocol.App.State.{Stores}
use foundation_protocol.App.Quiet.{Core}
use foundation_protocol.App.Steps.{
  Step, stay, register, found, membership, session, activity, issue, settle, confirmed, Steps, done,
  step,
}
use foundation_protocol.App.Links.Participants.{Known, run-Stored, run-AllKnown}
use foundation_protocol.App.Links.Parts.{IsPlaced, IsHoused, run-IsPlaced, run-IsHoused}
use foundation_protocol.Economy.Services.{confirm}

module _ (stores : Stores) where
  -- The receipts of a settlement are stored.
  abbrev HasReceipts : stores.receipts.State → Settlement → Type 0
  HasReceipts receipts t =
      (r : String) → contains t.receipt_refs r ≡ true → Stored stores.receipts receipts r

  -- Every stored object refers to stored objects only.
  pub record IsLinked (c : Core stores) : Type 0 where
    pub sessions_valid : stores.sessions.IsValid c.sessions
    pub activities_valid : stores.activities.base.IsValid c.activities
    pub memberships_valid : stores.memberships.base.IsValid c.memberships
    pub participants : AllStored stores.sessions (Known stores c.entities) c.sessions
    pub activities : AllStored stores.activities.base (IsPlaced stores c) c.activities
    pub memberships : AllStored stores.memberships.base (IsHoused stores c) c.memberships
    pub settlements : AllStored stores.settlements (HasReceipts c.receipts) c.settlements

  -- More entities break no reference.
  module _ (a : Core stores) (linked : IsLinked a) (es : stores.entities.State)
      (grows : (e : String)
        → Stored stores.entities a.entities e
        → Stored stores.entities es e) where
    entities-IsLinked : IsLinked (record a { entities = es })
    entities-IsLinked = record {
      sessions_valid = linked.sessions_valid;
      activities_valid = linked.activities_valid;
      memberships_valid = linked.memberships_valid;
      participants = λ k v q e there. grows e (linked.participants k v q e there);
      activities = λ k v q.
          let (here, owner, initiator) = linked.activities k v q in
          (here, grows v.owner_entity_id owner, grows v.initiator_entity_id initiator);
      memberships = linked.memberships;
      settlements = linked.settlements;
    }

  pub step-IsLinked : {a b : Core stores} → Step stores a b → IsLinked a → IsLinked b
  step-IsLinked (stay p) linked = rw p linked
  step-IsLinked {a} (register e p) linked = rw p (
      entities-IsLinked a linked (stores.entities.put a.entities e)
        (put-Stored stores.entities a.entities e))
  step-IsLinked {a} (found o p) linked =
      let bigger =
        entities-IsLinked a linked (stores.entities.put a.entities o.entity)
          (put-Stored stores.entities a.entities o.entity) in
      rw p (record {
        sessions_valid = bigger.sessions_valid;
        activities_valid = bigger.activities_valid;
        memberships_valid = bigger.memberships_valid;
        participants = bigger.participants;
        activities = bigger.activities;
        memberships = λ k v q.
            put-Stored stores.organizations a.organizations o v.organization_id
              (bigger.memberships k v q);
        settlements = bigger.settlements;
      })
  step-IsLinked {a} (membership c p) linked =
      let (housed, valid) = run-IsHoused stores a linked.memberships_valid linked.memberships c in
      rw p (record {
        sessions_valid = linked.sessions_valid;
        activities_valid = linked.activities_valid;
        memberships_valid = valid;
        participants = linked.participants;
        activities = linked.activities;
        memberships = housed;
        settlements = linked.settlements;
      })
  step-IsLinked {a} (session c k p) linked = rw p (record {
    sessions_valid = Calls.run-IsValid stores.sessions a.sessions linked.sessions_valid c;
    activities_valid = linked.activities_valid;
    memberships_valid = linked.memberships_valid;
    participants =
        run-AllKnown stores a.entities a.sessions linked.sessions_valid c k linked.participants;
    activities = λ id v q.
        let (here, owner, initiator) = linked.activities id v q in
        (
          run-Stored stores a.entities a.sessions linked.sessions_valid c v.session_id here,
          owner,
          initiator,
        );
    memberships = linked.memberships;
    settlements = linked.settlements;
  })
  step-IsLinked {a} (activity c k p) linked = rw p (record {
    sessions_valid = linked.sessions_valid;
    activities_valid =
        ActivityCalls.run-IsValid stores.activities a.activities linked.activities_valid c;
    memberships_valid = linked.memberships_valid;
    participants = linked.participants;
    activities = run-IsPlaced stores a linked.activities_valid linked.activities c k;
    memberships = linked.memberships;
    settlements = linked.settlements;
  })
  step-IsLinked {a} (issue r p) linked = rw p (record {
    sessions_valid = linked.sessions_valid;
    activities_valid = linked.activities_valid;
    memberships_valid = linked.memberships_valid;
    participants = linked.participants;
    activities = linked.activities;
    memberships = linked.memberships;
    settlements = λ k v q ref there.
        put-Stored stores.receipts a.receipts r ref (linked.settlements k v q ref there);
  })
  step-IsLinked {a} (settle t k p) linked = rw p (record {
    sessions_valid = linked.sessions_valid;
    activities_valid = linked.activities_valid;
    memberships_valid = linked.memberships_valid;
    participants = linked.participants;
    activities = linked.activities;
    memberships = linked.memberships;
    settlements =
        put-AllStored stores.settlements a.settlements (HasReceipts a.receipts) t k
          linked.settlements;
  })
  step-IsLinked {a} (confirmed id t q p) linked = rw p (record {
    sessions_valid = linked.sessions_valid;
    activities_valid = linked.activities_valid;
    memberships_valid = linked.memberships_valid;
    participants = linked.participants;
    activities = linked.activities;
    memberships = linked.memberships;
    settlements =
        put-AllStored stores.settlements a.settlements (HasReceipts a.receipts) (confirm t)
          (unfold confirm in linked.settlements id t q) linked.settlements;
  })

  pub steps-IsLinked : {a b : Core stores} → Steps stores a b → IsLinked a → IsLinked b
  steps-IsLinked done linked = linked
  steps-IsLinked (step h rest) linked = steps-IsLinked rest (step-IsLinked h linked)
