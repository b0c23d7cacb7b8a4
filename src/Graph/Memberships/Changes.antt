-- ===== src/Graph/Memberships/Changes.antt =====
-- What the methods that change one membership do to the store.
use foundation_protocol.Prelude.{
  ℕ, String, ◌≡◌, ◌⊎◌, inl, inr, Bool, true, false, none, some, List, [], ◌∷◌, arith, is_empty,
  first, Option-cases, Bool-cases, sym, ap, ◌∙◌,
}
use foundation_protocol.Protocol.Errors.{Result, ok, err, fp_error, not_found}
use foundation_protocol.Protocol.Models.Signed.{require_non_empty}
use foundation_protocol.Protocol.Models.Organizations.{Membership, init_membership}
use foundation_protocol.Stores.Grouped.Queries.{In}
use foundation_protocol.Stores.Interfaces.{OrganizationStore, MembershipStore}
use foundation_protocol.Runtime.Revise.{Result-cases, fetch, save}
use foundation_protocol.Graph.Memberships.{
  is_active, is_revoked, is_member, granted, deprived, withdrawn, add, store_changed, remove,
  find_by_member, grant_roles, revoke_roles, MembershipCall, add_call, remove_call, grant_call,
  revoke_call, run,
}

first_sound :
    {A : Type 0} (p : A → Bool) (xs : List A) (a : A) → first p xs ≡ some a → (p a ≡ true) × In a xs
first_sound p [] a e = absurd (ground (arith, e))
first_sound p (x ∷ xs) a e = elim (Bool-cases (p x)) [
  | inl hit ↦ let same : x ≡ a = ground (arith, e, hit) in (ap p (sym same) ∙ hit, inl same)
  | inr miss ↦
      let later : first p xs ≡ some a = ground (arith, e, miss) in
      let (good, there) = first_sound p xs a later in (good, inr there)
]

-- What a method may make of a stored membership.
pub record IsEdit (old new : Membership) : Type 0 where
  pub same_id : new.membership_id ≡ old.membership_id
  pub same_organization : new.organization_id ≡ old.organization_id
  pub same_member : new.member_entity_id ≡ old.member_entity_id
  pub has_roles : is_empty new.roles ≡ false
  pub still_revoked :
      is_revoked old.status ≡ true → (is_revoked new.status ≡ true) × (new.roles ≡ old.roles)

granted-IsEdit :
    (roles : List String) (now : ℕ) (old new : Membership)
    → is_active old.status ≡ true
    → granted roles now old ≡ ok new
    → IsEdit old new
unfolding granted init_membership require_non_empty
granted-IsEdit roles now old new live e = record {
  same_id = ground (arith, e);
  same_organization = ground (arith, e);
  same_member = ground (arith, e);
  has_roles = ground (arith, e);
  still_revoked = λ over. absurd (ground (arith, live, over));
}

deprived-IsEdit :
    (roles : List String) (now : ℕ) (old new : Membership)
    → is_active old.status ≡ true
    → deprived roles now old ≡ ok new
    → IsEdit old new
unfolding deprived init_membership require_non_empty
deprived-IsEdit roles now old new live e = record {
  same_id = ground (arith, e);
  same_organization = ground (arith, e);
  same_member = ground (arith, e);
  has_roles = ground (arith, e);
  still_revoked = λ over. absurd (ground (arith, live, over));
}

withdrawn-IsEdit :
    (organization_id : String) (now : ℕ) (old new : Membership)
    → withdrawn organization_id now old ≡ ok new
    → IsEdit old new
unfolding withdrawn init_membership require_non_empty
withdrawn-IsEdit organization_id now old new e = record {
  same_id = ground (arith, e);
  same_organization = ground (arith, e);
  same_member = ground (arith, e);
  has_roles = ground (arith, e);
  still_revoked = λ over. ground (arith, e);
}

-- A method stored what it made of a membership that it found.
pub record Edit (memberships : MembershipStore) (s after : memberships.base.State) : Type 0 where
  pub old : Membership
  pub new : Membership
  pub stored : memberships.base.get s old.membership_id ≡ some old
  pub how : IsEdit old new
  pub outcome : after ≡ memberships.base.put s new

module _ (memberships : MembershipStore) (s : memberships.base.State)
    (f : Membership → Result Membership) (m : Membership)
    (edits : (b : Membership) → f m ≡ ok b → IsEdit m b) where
  change_cases :
      memberships.base.get s m.membership_id ≡ some m
      → ((store_changed memberships f m s).1 ≡ s)
        ⊎ Edit memberships s (store_changed memberships f m s).1
  unfolding save
  change_cases stored = elim (Result-cases (f m)) [
    | inr (e, p) ↦ inl (ground (arith, p))
    | inl (w, p) ↦
        inr (record {
          old = m;
          new = w;
          stored = stored;
          how = edits w p;
          outcome = ground (arith, p);
        })
  ]

module _ (memberships : MembershipStore) (s : memberships.base.State)
    (valid : memberships.base.IsValid s) where
  -- What `_find_by_member` returns is stored, belongs to the organization, is active and is the
  -- member's; otherwise it raises `NOT_FOUND`.
  pub find_cases :
      (organization_id member_entity_id : String)
      → (find_by_member memberships organization_id member_entity_id s
          ≡ (err (fp_error not_found), s))
        ⊎ ((m : Membership) × (find_by_member memberships organization_id member_entity_id s
              ≡ (ok m, s))
            × (is_member member_entity_id m ≡ true)
            × (memberships.base.get s m.membership_id ≡ some m)
            × (m.organization_id ≡ organization_id))
  unfolding find_by_member
  find_cases organization_id member_entity_id =
      elim (Option-cases
        (first (is_member member_entity_id) (memberships.by_group s organization_id))) [
          | inl p ↦ inl (ground (arith, p))
          | inr (m, p) ↦
              let (good, there) =
                first_sound (is_member member_entity_id) (memberships.by_group s organization_id) m
                  p in
              let (stored, mine) = (memberships.In-by_group s organization_id m valid).0 there in
              inr (m, ground (arith, p), good, stored, mine)
        ]

  pub grant_cases :
      (organization_id member_entity_id : String) (roles : List String) (now : ℕ)
      → let after = (grant_roles memberships organization_id member_entity_id roles now s).1 in
        (after ≡ s) ⊎ Edit memberships s after
  unfolding grant_roles
  grant_cases organization_id member_entity_id roles now =
      elim (find_cases organization_id member_entity_id) [
        | inl p ↦ inl (ground (arith, p))
        | inr (m, p, good, stored, mine) ↦ rw p (
            change_cases memberships s (granted roles now) m
              (λ b. granted-IsEdit roles now m b (ground (arith, good))) stored)
      ]

  pub revoke_cases :
      (organization_id member_entity_id : String) (roles : List String) (now : ℕ)
      → let after = (revoke_roles memberships organization_id member_entity_id roles now s).1 in
        (after ≡ s) ⊎ Edit memberships s after
  unfolding revoke_roles
  revoke_cases organization_id member_entity_id roles now =
      elim (find_cases organization_id member_entity_id) [
        | inl p ↦ inl (ground (arith, p))
        | inr (m, p, good, stored, mine) ↦ rw p (
            change_cases memberships s (deprived roles now) m
              (λ b. deprived-IsEdit roles now m b (ground (arith, good))) stored)
      ]

  pub remove_cases :
      (organization_id membership_id : String) (now : ℕ)
      → let after = (remove memberships organization_id membership_id now s).1 in
        (after ≡ s) ⊎ Edit memberships s after
  unfolding remove fetch
  remove_cases organization_id membership_id now =
      elim (Option-cases (memberships.base.get s membership_id)) [
        | inl p ↦ inl (ground (arith, p))
        | inr (m, p) ↦
            let own = memberships.base.keyed s membership_id m valid p in
            rw p (
              change_cases memberships s (withdrawn organization_id now) m
                (withdrawn-IsEdit organization_id now m) (ap (memberships.base.get s) own ∙ p))
      ]

-- The object of an `add` has passed the check of its class.
abbrev pub IsBuilt : MembershipCall → Type 0
IsBuilt (add_call m) = init_membership m ≡ ok m
IsBuilt _ = Unit

module _ (organizations : OrganizationStore) (memberships : MembershipStore)
    (known : organizations.State) (s : memberships.base.State) where
  add_cases :
      (m : Membership)
      → ((add organizations memberships known m s).1 ≡ s)
        ⊎ ((memberships.base.get s m.membership_id ≡ none)
            × ((add organizations memberships known m s).1 ≡ memberships.base.put s m))
  unfolding add save
  add_cases m = elim (Option-cases (organizations.get known m.organization_id)) [
    | inl p ↦ inl (ground (arith, p))
    | inr (o, p) ↦ elim (Option-cases (memberships.base.get s m.membership_id)) [
      | inr (old, q) ↦ inl (ground (arith, p, q))
      | inl q ↦ inr (q, ground (arith, p, q))
    ]
  ]

  -- A new membership under a free id.
  pub record Addition (after : memberships.base.State) : Type 0 where
    pub added : Membership
    pub free : memberships.base.get s added.membership_id ≡ none
    pub has_roles : is_empty added.roles ≡ false
    pub outcome : after ≡ memberships.base.put s added

  -- A call leaves the store alone, adds a membership or edits one.
  pub run_cases :
      (c : MembershipCall)
      → memberships.base.IsValid s
      → IsBuilt c
      → let after = (run organizations memberships known c s).1 in
        (after ≡ s) ⊎ Addition after ⊎ Edit memberships s after
  unfolding run init_membership require_non_empty
  run_cases (add_call m) valid built = elim (add_cases m) [
    | inl p ↦ inl p
    | inr (q, p) ↦
        inr (inl (record { added = m; free = q; has_roles = ground (arith, built); outcome = p }))
  ]
  run_cases (remove_call organization_id membership_id now) valid built =
      elim (remove_cases memberships s valid organization_id membership_id now) [
        | inl p ↦ inl p
        | inr e ↦ inr (inr e)
      ]
  run_cases (grant_call organization_id member_entity_id roles now) valid built =
      elim (grant_cases memberships s valid organization_id member_entity_id roles now) [
        | inl p ↦ inl p
        | inr e ↦ inr (inr e)
      ]
  run_cases (revoke_call organization_id member_entity_id roles now) valid built =
      elim (revoke_cases memberships s valid organization_id member_entity_id roles now) [
        | inl p ↦ inl p
        | inr e ↦ inr (inr e)
      ]
