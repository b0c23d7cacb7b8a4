-- ===== src/App/Links/Parts.antt =====
-- The sessions of stored activities and the organizations of stored memberships.
use foundation_protocol.Prelude.{String, ◌≡◌, ◌⊎◌, inl, inr, Option-cases}
use foundation_protocol.Protocol.Errors.{Result, ok}
use foundation_protocol.Protocol.Models.Activities.{Activity}
use foundation_protocol.Protocol.Models.Organizations.{Membership}
use foundation_protocol.Stores.Stored.{Stored, AllStored, put-AllStored, revise-AllStored}
use foundation_protocol.Runtime.Revise.{revise, save}
use foundation_protocol.Runtime.Activities.{
  started, transitioned, completed_with, failed_with, canceled_with, transition, complete, fail,
  cancel, ActivityCall, start_call, transition_call, complete_call, fail_call, cancel_call, run,
}
use foundation_protocol.Runtime.Activities.States
use foundation_protocol.Runtime.Activities.Calls
use foundation_protocol.Graph.Memberships
use foundation_protocol.Graph.Memberships.{
  MembershipCall, add_call, remove_call, grant_call, revoke_call, add,
}
use foundation_protocol.Graph.Memberships.Changes.{Edit, remove_cases, grant_cases, revoke_cases}
use foundation_protocol.App.State.{Stores}
use foundation_protocol.App.Steps.{Allows}
use foundation_protocol.App.Quiet.{Core}

module _ (stores : Stores) (c : Core stores) where
  abbrev pub IsPlaced : Activity → Type 0
  IsPlaced a =
      Stored stores.sessions c.sessions a.session_id
      × Stored stores.entities c.entities a.owner_entity_id
      × Stored stores.entities c.entities a.initiator_entity_id

  step-IsPlaced : (a b : Activity) → States.IsStep a b → IsPlaced a → IsPlaced b
  step-IsPlaced a b h placed = rw (h.same_session, h.same_owner, h.same_initiator) placed

  module _ (valid : stores.activities.base.IsValid c.activities)
      (all : AllStored stores.activities.base IsPlaced c.activities) where
    revised :
        (key : String) (f : Activity → Result Activity)
        → ((a b : Activity) → f a ≡ ok b → States.IsStep a b)
        → AllStored stores.activities.base IsPlaced
            (revise stores.activities.base key f c.activities).1
    revised key f steps =
        revise-AllStored stores.activities.base c.activities valid key f
          (λ a b q. (steps a b q).same_id) IsPlaced (λ a b h q. step-IsPlaced a b (steps a b q) h)
          all

    pub run-IsPlaced :
        (call : ActivityCall)
        → Allows stores c call
        → AllStored stores.activities.base IsPlaced (run stores.activities call c.activities).1
    unfolding run
    run-IsPlaced (start_call n) k = elim (Calls.start_cases stores.activities n c.activities) [
      | inl (e, p) ↦ rw p all
      | inr (free, p) ↦ rw p (
          put-AllStored stores.activities.base c.activities IsPlaced (started n)
            (unfold started in k) all)
    ]
    run-IsPlaced (transition_call key name message patch now) k =
        unfold transition in
        revised key (transitioned name message patch now)
          λ a b q. (States.transitioned-IsStep name message patch now a b q).0
    run-IsPlaced (complete_call key payload ref now) k =
        unfold complete in
        revised key (completed_with payload ref now)
          λ a b q. (States.completed_with-IsStep payload ref now a b q).0
    run-IsPlaced (fail_call key message details now) k =
        unfold fail in
        revised key (failed_with message details now)
          (States.failed_with-IsStep message details now)
    run-IsPlaced (cancel_call key reason now) k =
        unfold cancel in
        revised key (canceled_with reason now)
          λ a b q. (States.canceled_with-IsStep reason now a b q).0

  abbrev pub IsHoused : Membership → Type 0
  IsHoused m = Stored stores.organizations c.organizations m.organization_id

  abbrev AllHoused : stores.memberships.base.State → Type 0
  AllHoused = AllStored stores.memberships.base IsHoused

  module _ (valid : stores.memberships.base.IsValid c.memberships)
      (all : AllHoused c.memberships) where
    edited :
        (after : stores.memberships.base.State)
        → (after ≡ c.memberships) ⊎ Edit stores.memberships c.memberships after
        → AllHoused after × stores.memberships.base.IsValid after
    edited after (inl p) = rw p (all, valid)
    edited after (inr e) = rw e.outcome (
      put-AllStored stores.memberships.base c.memberships IsHoused e.new
          (rw e.how.same_organization (all _ e.old e.stored)) all,
      stores.memberships.base.put-IsValid c.memberships e.new valid,
    )

    added :
        (m : Membership)
        → let after =
            (add stores.organizations stores.memberships c.organizations m c.memberships).1 in
          AllHoused after × stores.memberships.base.IsValid after
    unfolding add save
    added m = elim (Option-cases (stores.organizations.get c.organizations m.organization_id)) [
      | inl p ↦ rw p (all, valid)
      | inr (o, p) ↦
          elim (Option-cases (stores.memberships.base.get c.memberships m.membership_id)) [
            | inr (old, q) ↦ rw (p, q) (all, valid)
            | inl q ↦
                rw (p, q)
                  (
                    put-AllStored stores.memberships.base c.memberships IsHoused m (o, p) all,
                    stores.memberships.base.put-IsValid c.memberships m valid,
                  )
          ]
    ]

    pub run-IsHoused :
        (call : MembershipCall)
        → let after =
            (Memberships.run stores.organizations stores.memberships c.organizations call
              c.memberships).1 in
          AllHoused after × stores.memberships.base.IsValid after
    unfolding Memberships.run
    run-IsHoused (add_call m) = added m
    run-IsHoused (remove_call o m now) =
        edited _ (remove_cases stores.memberships c.memberships valid o m now)
    run-IsHoused (grant_call o e roles now) =
        edited _ (grant_cases stores.memberships c.memberships valid o e roles now)
    run-IsHoused (revoke_call o e roles now) =
        edited _ (revoke_cases stores.memberships c.memberships valid o e roles now)
