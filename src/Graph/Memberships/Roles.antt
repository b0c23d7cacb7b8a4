-- ===== src/Graph/Memberships/Roles.antt =====
-- Memberships over any sequence of calls: each one keeps a role.
use foundation_protocol.Prelude.{
  String, ◌≡◌, inl, inr, false, some, List, [], ◌∷◌, arith, ◌==◌, is_empty, All, Bool-cases,
}
use foundation_protocol.Protocol.Models.Organizations.{Membership}
use foundation_protocol.Stores.Interfaces.{OrganizationStore, MembershipStore}
use foundation_protocol.Graph.Memberships.{MembershipCall, run, run_all}
use foundation_protocol.Graph.Memberships.Changes.{IsBuilt, run_cases}

-- Each stored membership has a role.
pub record AllHaveRoles (memberships : MembershipStore) (s : memberships.base.State) : Type 0 where
  pub each :
      (id : String) (m : Membership) → memberships.base.get s id ≡ some m → is_empty m.roles ≡ false

module _ (organizations : OrganizationStore) (memberships : MembershipStore)
    (known : organizations.State) where
  put-AllHaveRoles :
      (s : memberships.base.State) (new : Membership)
      → is_empty new.roles ≡ false
      → AllHaveRoles memberships s
      → AllHaveRoles memberships (memberships.base.put s new)
  put-AllHaveRoles s new full all = record {
    each = λ id m e. elim (Bool-cases (new.membership_id == id)) [
      | inl same ↦ ground (arith, memberships.base.get-put s new id, same, e, full)
      | inr other ↦ all.each id m (ground (arith, memberships.base.get-put s new id, other, e))
    ];
  }

  run-AllHaveRoles :
      (c : MembershipCall) (s : memberships.base.State)
      → memberships.base.IsValid s
      → IsBuilt c
      → AllHaveRoles memberships s
      → AllHaveRoles memberships (run organizations memberships known c s).1
  run-AllHaveRoles c s valid built all =
      elim (run_cases organizations memberships known s c valid built) [
        | inl p ↦ rw p all
        | inr (inl a) ↦ rw a.outcome (put-AllHaveRoles s a.added a.has_roles all)
        | inr (inr e) ↦ rw e.outcome (put-AllHaveRoles s e.new e.how.has_roles all)
      ]

  pub run-IsValid :
      (c : MembershipCall) (s : memberships.base.State)
      → memberships.base.IsValid s
      → IsBuilt c
      → memberships.base.IsValid (run organizations memberships known c s).1
  run-IsValid c s valid built = elim (run_cases organizations memberships known s c valid built) [
    | inl p ↦ rw p valid
    | inr (inl a) ↦ rw a.outcome (memberships.base.put-IsValid s a.added valid)
    | inr (inr e) ↦ rw e.outcome (memberships.base.put-IsValid s e.new valid)
  ]

  -- From a valid store whose memberships all have a role, each membership has a role after any list
  -- of calls of the registry whose added objects have passed the check of their class.
  pub run_all-AllHaveRoles :
      (calls : List MembershipCall) (s : memberships.base.State)
      → memberships.base.IsValid s
      → All IsBuilt calls
      → AllHaveRoles memberships s
      → AllHaveRoles memberships (run_all organizations memberships known calls s)
  unfolding run_all
  run_all-AllHaveRoles [] s valid built all = all
  run_all-AllHaveRoles (c ∷ calls) s valid built all =
      run_all-AllHaveRoles calls (run organizations memberships known c s).1
        (run-IsValid c s valid built.0) built.1 (run-AllHaveRoles c s valid built.0 all)
