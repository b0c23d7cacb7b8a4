-- ===== src/Runtime/Sessions/Roles.antt =====
-- The roles of a session and its participants, under the changes that the methods make.
use foundation_protocol.Prelude.{
  String, ◌≡◌, refl, inl, inr, Bool, true, false, not, ◌&&◌, Option, none, some, List, [], ◌∷◌,
  arith, eq_iff, Option-cases, is_empty, any_of, if◌then◌else◌,
}
use foundation_protocol.Dict
use foundation_protocol.Dict.{Dict}
use foundation_protocol.Dict.Laws.{get-put, get-remove, get-set_default, contains-keys}
use foundation_protocol.TextSet.{contains, add, discard, subset}
use foundation_protocol.TextSet.Laws.{contains-add, contains-discard}
use foundation_protocol.Runtime.Sessions.{roles_on_join, default_roles}

-- A participant with a set of roles that is not empty, or neither.
abbrev pub fits : Bool → Option (List String) → Bool
fits takes_part none = not takes_part
fits takes_part (some role_set) = takes_part && not (is_empty role_set)

-- Whoever takes part has a set of roles that is not empty, and nobody else has one.
abbrev pub RolesMatch : List String → Dict (List String) → Type 0
RolesMatch participants roles =
    (e : String) → fits (contains participants e) (Dict.get roles e) ≡ true

module _ (ps : List String) (roles : Dict (List String)) (h : RolesMatch ps roles)
    (k : String) where
  pub give-RolesMatch :
      (rs : List String) → is_empty rs ≡ false → RolesMatch (add ps k) (Dict.put roles k rs)
  give-RolesMatch rs full e = ground (arith, contains-add ps k e, get-put roles k e rs, h e)

  default-RolesMatch : RolesMatch (add ps k) (Dict.set_default roles k ("participant" ∷ []))
  unfolding Dict.has
  default-RolesMatch e =
      ground (
        arith,
        contains-add ps k e,
        get-set_default roles k e ("participant" ∷ []),
        h e,
        eq_iff k e,
      )

  pub remove-RolesMatch : RolesMatch (discard ps k) (Dict.remove roles k)
  remove-RolesMatch e =
      ground (arith, contains-discard ps k e, get-remove roles k e, h e, eq_iff k e, eq_iff e k)

  pub join-RolesMatch :
      (rs : Option (List String)) → RolesMatch (add ps k) (roles_on_join roles k rs)
  unfolding roles_on_join
  join-RolesMatch none = default-RolesMatch
  join-RolesMatch (some []) = default-RolesMatch
  join-RolesMatch (some (r ∷ rs)) = give-RolesMatch (r ∷ rs) refl

-- The roles of a new session.
get-default_roles :
    (roles : Dict (List String)) (es : List String) (e : String)
    → Dict.get (default_roles roles es) e ≡ elim (Dict.get roles e) [
      | some rs ↦ some rs
      | none ↦ if contains es e then some ("participant" ∷ []) else none
    ]
unfolding default_roles contains Dict.has
get-default_roles roles [] e = ground arith
get-default_roles roles (k ∷ es) e = ground (
  arith,
  get-default_roles (Dict.set_default roles k ("participant" ∷ [])) es e,
  get-set_default roles k e ("participant" ∷ []),
  eq_iff k e,
)

has_given :
    (ks ps : List String) (e : String)
    → subset ks ps ≡ true
    → contains ks e ≡ true
    → contains ps e ≡ true
unfolding subset contains
has_given [] ps e h m = cc
has_given (k ∷ ks) ps e h m = ground (arith, eq_iff k e, has_given ks ps e)

full_given :
    (roles : Dict (List String)) (e : String) (rs : List String)
    → any_of (λ x. is_empty x.1) roles ≡ false
    → Dict.get roles e ≡ some rs
    → is_empty rs ≡ false
unfolding Dict.get
full_given [] e rs h m = cc
full_given ((k, v) ∷ roles) e rs h m = ground (arith, full_given roles e rs)

pub opened-RolesMatch :
    (ps : List String) (roles : Dict (List String))
    → subset (Dict.keys roles) ps ≡ true
    → any_of (λ x. is_empty x.1) roles ≡ false
    → RolesMatch ps (default_roles roles ps)
unfolding Dict.has
opened-RolesMatch ps roles known full e = elim (Option-cases (Dict.get roles e)) [
  | inl p ↦ ground (arith, get-default_roles roles ps e, p)
  | inr (rs, p) ↦ ground (
    arith,
    get-default_roles roles ps e,
    p,
    full_given roles e rs full p,
    has_given (Dict.keys roles) ps e known,
    contains-keys roles e,
  )
]
