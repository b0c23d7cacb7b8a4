-- ===== src/Graph/Memberships/Revoked.antt =====
-- Memberships over any sequence of calls: a revoked one stays so.
use foundation_protocol.Prelude.{
  String, ◌≡◌, inl, inr, true, none, some, List, [], ◌∷◌, arith, ◌==◌, eq_iff, All, Bool-cases, sym,
  ap, ◌∙◌,
}
use foundation_protocol.Protocol.Models.Organizations.{Membership}
use foundation_protocol.Stores.Interfaces.{OrganizationStore, MembershipStore}
use foundation_protocol.Graph.Memberships.{is_revoked, MembershipCall, run, run_all}
use foundation_protocol.Graph.Memberships.Changes.{IsBuilt, IsEdit, run_cases}
use foundation_protocol.Graph.Memberships.Roles.{run-IsValid}

-- The membership is stored, revoked, and has the given roles.
pub record IsRevoked (memberships : MembershipStore) (s : memberships.base.State) (id : String)
    (roles : List String) : Type 0 where
  pub membership : Membership
  pub stored : memberships.base.get s id ≡ some membership
  pub over : is_revoked membership.status ≡ true
  pub same_roles : membership.roles ≡ roles

module _ (organizations : OrganizationStore) (memberships : MembershipStore)
    (known : organizations.State) where
  put-IsRevoked :
      (s : memberships.base.State) (old new : Membership) (id : String) (roles : List String)
      → memberships.base.IsValid s
      → memberships.base.get s old.membership_id ≡ some old
      → IsEdit old new
      → IsRevoked memberships s id roles
      → IsRevoked memberships (memberships.base.put s new) id roles
  put-IsRevoked s old new id roles valid stored how r =
      elim (Bool-cases (new.membership_id == id)) [
        | inl same ↦
            let here : r.membership ≡ old =
              ground (arith, r.stored, stored, how.same_id, eq_iff new.membership_id id, same) in
            let was : is_revoked old.status ≡ true =
              ap (λ m. is_revoked m.status) (sym here) ∙ r.over in
            record {
              membership = new;
              stored = ground (arith, memberships.base.get-put s new id, same);
              over = (how.still_revoked was).0;
              same_roles = (how.still_revoked was).1 ∙ ap (λ m. m.roles) (sym here) ∙ r.same_roles;
            }
        | inr other ↦ record {
          membership = r.membership;
          stored = ground (arith, memberships.base.get-put s new id, other, r.stored);
          over = r.over;
          same_roles = r.same_roles;
        }
      ]

  add-IsRevoked :
      (s : memberships.base.State) (new : Membership) (id : String) (roles : List String)
      → memberships.base.get s new.membership_id ≡ none
      → IsRevoked memberships s id roles
      → IsRevoked memberships (memberships.base.put s new) id roles
  add-IsRevoked s new id roles free r = record {
    membership = r.membership;
    stored =
        ground
          (arith, memberships.base.get-put s new id, r.stored, free, eq_iff new.membership_id id);
    over = r.over;
    same_roles = r.same_roles;
  }

  run-IsRevoked :
      (c : MembershipCall) (s : memberships.base.State) (id : String) (roles : List String)
      → memberships.base.IsValid s
      → IsBuilt c
      → IsRevoked memberships s id roles
      → IsRevoked memberships (run organizations memberships known c s).1 id roles
  run-IsRevoked c s id roles valid built r =
      elim (run_cases organizations memberships known s c valid built) [
        | inl p ↦ rw p r
        | inr (inl a) ↦ rw a.outcome (add-IsRevoked s a.added id roles a.free r)
        | inr (inr e) ↦ rw e.outcome (put-IsRevoked s e.old e.new id roles valid e.stored e.how r)
      ]

  -- In a valid store, a membership that is revoked is still stored and revoked, with the roles that
  -- it had, after any list of calls of the registry whose added objects have passed the check of
  -- their class.
  pub run_all-IsRevoked :
      (calls : List MembershipCall) (s : memberships.base.State) (id : String) (roles : List String)
      → memberships.base.IsValid s
      → All IsBuilt calls
      → IsRevoked memberships s id roles
      → IsRevoked memberships (run_all organizations memberships known calls s) id roles
  unfolding run_all
  run_all-IsRevoked [] s id roles valid built r = r
  run_all-IsRevoked (c ∷ calls) s id roles valid built r =
      run_all-IsRevoked calls (run organizations memberships known c s).1 id roles
        (run-IsValid organizations memberships known c s valid built.0) built.1
        (run-IsRevoked c s id roles valid built.0 r)
