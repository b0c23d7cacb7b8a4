-- ===== src/Runtime/Sessions/WellFormed.antt =====
-- The invariant of every stored session: exactly the participants hold roles, and a set of roles
-- is never empty. No stored session is in the state `CREATED`.
use foundation_protocol.Prelude.{
  ℕ, String, ◌≡◌, refl, inl, inr, true, false, Option, none, some, List, [], ◌∷◌, arith, ◌==◌,
  Bool-cases, sym, ap, ◌∙◌, subst,
}
use foundation_protocol.Dict.{Dict}
use foundation_protocol.Protocol.Errors.{Result, ok}
use foundation_protocol.Protocol.Models.Sessions.{SessionState, SessionBudget, created, Session}
use foundation_protocol.Stores.Interfaces.{SessionStore}
use foundation_protocol.Runtime.Revise.{revise, revise_new, Result-cases}
use foundation_protocol.Runtime.Sessions.{
  allowed_transition, same_state, is_over, joined, left, with_state, with_roles, give_roles,
  with_policy, updated, closed_with, checked, opened, NewSession, SessionCall, create_call,
  join_call, leave_call, update_call, close_call, run, run_all, create, join, leave, update,
}
use foundation_protocol.Runtime.Sessions.States
use foundation_protocol.Runtime.Sessions.Calls
use foundation_protocol.Runtime.Sessions.Roles.{
  RolesMatch, give-RolesMatch, remove-RolesMatch, join-RolesMatch, opened-RolesMatch,
}

-- The invariant of a stored session.
pub record IsWellFormed (v : Session) : Type 0 where
  pub roles_match : RolesMatch v.participants v.roles
  pub not_created : same_state v.state created ≡ false

abbrev Keeps : (Session → Result Session) → Type 0
Keeps f = (old new : Session) → IsWellFormed old → f old ≡ ok new → IsWellFormed new

opened-IsWellFormed : (n : NewSession) → checked n ≡ ok (opened n) → IsWellFormed (opened n)
unfolding checked opened
opened-IsWellFormed n h = record {
  roles_match = opened-RolesMatch n.participants n.roles (ground arith) (ground arith);
  not_created = refl;
}

joined-IsWellFormed : (e : String) (rs : Option (List String)) (now : ℕ) → Keeps (joined e rs now)
unfolding joined
joined-IsWellFormed e rs now old new w h = record {
  roles_match =
      λ x. ground (arith, join-RolesMatch old.participants old.roles w.roles_match e rs x);
  not_created = ground arith;
}

left-IsWellFormed : (e : String) (now : ℕ) → Keeps (left e now)
unfolding left
left-IsWellFormed e now old new w h = record {
  roles_match = λ x. ground (arith, remove-RolesMatch old.participants old.roles w.roles_match e x);
  not_created = ground (arith, w.not_created);
}

closed_with-IsWellFormed : (reason : Option String) (now : ℕ) → Keeps (closed_with reason now)
unfolding closed_with
closed_with-IsWellFormed reason now old new w h = record {
  roles_match = λ x. ground (arith, w.roles_match x);
  not_created = ground arith;
}

with_roles-IsWellFormed : (patch : Dict (List String)) → Keeps (with_roles patch)
unfolding with_roles
with_roles-IsWellFormed [] old new w h = record {
  roles_match = λ x. ground (arith, w.roles_match x);
  not_created = ground (arith, w.not_created);
}
with_roles-IsWellFormed ((k, []) ∷ patch) old new w h = cc
with_roles-IsWellFormed ((k, r ∷ rs) ∷ patch) old new w h =
    with_roles-IsWellFormed patch (give_roles k (r ∷ rs) old) new
      (record {
        roles_match = give-RolesMatch old.participants old.roles w.roles_match k (r ∷ rs) refl;
        not_created = w.not_created;
      })
      h

-- The table has no way back to `CREATED`.
never_to_created :
    (a b : SessionState) → allowed_transition a b ≡ true → same_state b created ≡ false
unfolding allowed_transition
never_to_created a created h = ground arith
never_to_created a _ h = refl

with_state-IsWellFormed : (state : Option SessionState) → Keeps (with_state state)
unfolding with_state
with_state-IsWellFormed none old new w h = record {
  roles_match = λ x. ground (arith, w.roles_match x);
  not_created = ground (arith, w.not_created);
}
with_state-IsWellFormed (some state) old new w h = record {
  roles_match = λ x. ground (arith, w.roles_match x);
  not_created = ground (arith, w.not_created, never_to_created old.state state);
}

module _ (policy_ref : Option String) (budget : Option SessionBudget) (state : Option SessionState)
    (patch : Dict (List String)) (now : ℕ) where
  updated-IsWellFormed : Keeps (updated policy_ref budget state patch now)
  unfolding updated with_policy
  updated-IsWellFormed old new w h = elim (Bool-cases (is_over old.state)) [
    | inl over ↦ cc (rw (over, updated) at h)
    | inr open_ ↦ elim (Result-cases (with_state state (with_policy policy_ref budget old))) [
      | inr (e, p) ↦ cc (rw (open_, p, updated) at h)
      | inl (middle, p) ↦ elim (Result-cases (with_roles patch middle)) [
        | inr (e, q) ↦ cc (rw (open_, p, q, updated) at h)
        | inl (last, q) ↦
            let start : IsWellFormed (with_policy policy_ref budget old) = record {
              roles_match = w.roles_match;
              not_created = w.not_created;
            } in
            let a =
              with_state-IsWellFormed state (with_policy policy_ref budget old) middle start p in
            let b = with_roles-IsWellFormed patch middle last a q in
            record {
              roles_match = λ x. ground (arith, open_, p, q, h, b.roles_match x);
              not_created = ground (arith, open_, p, q, h, b.not_created);
            }
      ]
    ]
  ]

module _ (store : SessionStore) where
  -- Every stored session satisfies the invariant.
  abbrev pub AllWellFormed : store.State → Type 0
  AllWellFormed s = (id : String) (v : Session) → store.get s id ≡ some v → IsWellFormed v

  module _ (s : store.State) (valid : store.IsValid s) (all : AllWellFormed s) where
    revised-AllWellFormed :
        (key : String) (f : Session → Result Session)
        → ((a b : Session) → f a ≡ ok b → States.IsStep a b)
        → Keeps f
        → AllWellFormed (revise store key f s).1
    revised-AllWellFormed key f step keeps id v e =
        elim (revise_new store key f (λ a b q. (step a b q).same_id) s valid id v e) [
          | inl old ↦ all id v old
          | inr (a, stored, made) ↦ keeps a v (all key a stored) made
        ]

    create-AllWellFormed : (n : NewSession) → AllWellFormed (create store n s).1
    create-AllWellFormed n id v e = elim (Calls.create_cases store n s) [
      | inl (c, p) ↦ all id v (sym (ap (λ r. store.get r.1 id) p) ∙ e)
      | inr (free, fine, p) ↦
          let here : store.get (store.put s (opened n)) id ≡ some v =
            sym (ap (λ r. store.get r.1 id) p) ∙ e in
          elim (Bool-cases ((opened n).session_id == id)) [
            | inl q ↦
                let same : opened n ≡ v = ground (arith, store.get-put s (opened n) id, q, here) in
                subst IsWellFormed same (opened-IsWellFormed n fine)
            | inr q ↦ all id v (ground (arith, store.get-put s (opened n) id, q, here))
          ]
    ]

    -- Every call, whether it raises or not, keeps the invariant.
    pub run-AllWellFormed : (c : SessionCall) → AllWellFormed (run store c s).1
    unfolding run
    run-AllWellFormed (create_call n) = create-AllWellFormed n
    run-AllWellFormed (join_call key e rs now) =
        unfold join in
        revised-AllWellFormed key (joined e rs now) (States.joined-IsStep e rs now)
          (joined-IsWellFormed e rs now)
    run-AllWellFormed (leave_call key e now) =
        unfold leave in
        revised-AllWellFormed key (left e now) (States.left-IsStep e now) (left-IsWellFormed e now)
    run-AllWellFormed (update_call key policy_ref budget state patch now) =
        unfold update in
        revised-AllWellFormed key (updated policy_ref budget state patch now)
          (States.updated-IsStep policy_ref budget state patch now)
          (updated-IsWellFormed policy_ref budget state patch now)
    run-AllWellFormed (close_call key reason now) =
        elim (Calls.close_cases store key reason now s) [
          | inl p ↦ rw p all
          | inr p ↦ rw p (
              revised-AllWellFormed key (closed_with reason now)
                (States.closed_with-IsStep reason now) (closed_with-IsWellFormed reason now))
        ]

  -- From a valid store whose sessions are all well-formed, every stored session is well-formed
  -- after any list of calls of create, join, leave, update and close, whether they raise or not:
  -- its participants are exactly the entities that have roles, no role set is empty, and its state
  -- is not CREATED.
  pub run_all-AllWellFormed :
      (calls : List SessionCall) (s : store.State)
      → store.IsValid s
      → AllWellFormed s
      → AllWellFormed (run_all store calls s)
  unfolding run_all
  run_all-AllWellFormed [] s valid all = all
  run_all-AllWellFormed (c ∷ calls) s valid all =
      run_all-AllWellFormed calls (run store c s).1 (Calls.run-IsValid store s valid c)
        (run-AllWellFormed s valid all c)
