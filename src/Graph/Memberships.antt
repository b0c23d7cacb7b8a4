-- ===== src/Graph/Memberships.antt =====
-- src/fp/graph/memberships.py: the registry of memberships. A membership is never taken out of the
-- store: `remove` sets its status.
pub mod Changes
pub mod Roles
pub mod Revoked
use foundation_protocol.Prelude.{
  ℕ, String, Bool, true, false, not, ◌&&◌, ◌||◌, Option, none, some, List, [], ◌∷◌, arith, is_none,
  is_empty, first, ◌==◌, if◌then◌else◌,
}
use foundation_protocol.TextSet.{union, difference}
use foundation_protocol.Protocol.Errors.{
  Result, ok, err, Exec, not_found, already_exists, invalid_argument, raise, raise_if, gets, pure,
  check, lift, ◌>>=◌, ◌>>◌,
}
use foundation_protocol.Protocol.Models.Organizations.{
  Membership, MembershipStatus, active, inactive, suspended, revoked, init_membership,
}
use foundation_protocol.Stores.Interfaces.{OrganizationStore, MembershipStore}
use foundation_protocol.Runtime.Revise.{fetch, save}

abbrev pub is_active : MembershipStatus → Bool
is_active active = true
is_active _ = false

abbrev pub is_revoked : MembershipStatus → Bool
is_revoked revoked = true
is_revoked _ = false

-- `_find_by_member`, on the organization's memberships
abbrev pub is_member : String → Membership → Bool
is_member member_entity_id m = m.member_entity_id == member_entity_id && is_active m.status

-- `replace` builds the membership anew, which checks it again.
unfoldable pub granted : List String → ℕ → Membership → Result Membership
granted roles now m = init_membership (record m { roles = union m.roles roles; updated_at = now })

unfoldable pub deprived : List String → ℕ → Membership → Result Membership
deprived roles now m =
    let left = difference m.roles roles in
    check (is_empty left) invalid_argument
      (init_membership (record m { roles = left; updated_at = now }))

unfoldable pub withdrawn : String → ℕ → Membership → Result Membership
withdrawn organization_id now m =
    check (not (m.organization_id == organization_id)) not_found
      (init_membership (record m { status = revoked; updated_at = now }))

pub data MembershipCall : Type 0 where
  add_call : Membership → MembershipCall
  remove_call : String → String → ℕ → MembershipCall
  grant_call : String → String → List String → ℕ → MembershipCall
  revoke_call : String → String → List String → ℕ → MembershipCall

module _ (organizations : OrganizationStore) (memberships : MembershipStore) where
  -- The organizations are only read. The membership is an object, so its check has passed.
  unfoldable pub add : organizations.State → Membership → Exec memberships.base.State Membership
  unfolding save
  add known membership = do
    raise_if (is_none (organizations.get known membership.organization_id)) not_found
    existing ← gets (λ s. memberships.base.get s membership.membership_id)
    raise_if (not (is_none existing)) already_exists
    save memberships.base membership
    pure membership

module _ (memberships : MembershipStore) where
  abbrev store_changed :
      (Membership → Result Membership) → Membership → Exec memberships.base.State Membership
  store_changed f m = do updated ← lift (f m); save memberships.base updated; pure updated

  unfoldable pub remove : String → String → ℕ → Exec memberships.base.State Membership
  unfolding fetch save withdrawn
  remove organization_id membership_id now = do
    membership ← fetch memberships.base membership_id
    store_changed (withdrawn organization_id now) membership

  abbrev found : Option Membership → Exec memberships.base.State Membership
  found none = raise not_found
  found (some m) = pure m

  unfoldable pub find_by_member : String → String → Exec memberships.base.State Membership
  find_by_member organization_id member_entity_id s =
      found (first (is_member member_entity_id) (memberships.by_group s organization_id)) s

  unfoldable pub grant_roles :
      String → String → List String → ℕ → Exec memberships.base.State Membership
  unfolding find_by_member save granted
  grant_roles organization_id member_entity_id roles now = do
    membership ← find_by_member organization_id member_entity_id
    store_changed (granted roles now) membership

  unfoldable pub revoke_roles :
      String → String → List String → ℕ → Exec memberships.base.State Membership
  unfolding find_by_member save deprived
  revoke_roles organization_id member_entity_id roles now = do
    membership ← find_by_member organization_id member_entity_id
    store_changed (deprived roles now) membership

  unfoldable pub list_for_organization : memberships.base.State → String → List Membership
  list_for_organization s organization_id = memberships.by_group s organization_id

module _ (organizations : OrganizationStore) (memberships : MembershipStore)
    (known : organizations.State) where
  unfoldable pub run : MembershipCall → Exec memberships.base.State Membership
  run (add_call m) = add organizations memberships known m
  run (remove_call organization_id membership_id now) =
      remove memberships organization_id membership_id now
  run (grant_call organization_id member_entity_id roles now) =
      grant_roles memberships organization_id member_entity_id roles now
  run (revoke_call organization_id member_entity_id roles now) =
      revoke_roles memberships organization_id member_entity_id roles now

  -- The store after a list of calls; a raise ends only its own call.
  unfoldable pub run_all : List MembershipCall → memberships.base.State → memberships.base.State
  unfolding run
  run_all [] s = s
  run_all (c ∷ calls) s = run_all calls (run c s).1
