-- ===== src/App/Links/Participants.antt =====
-- The participants of stored sessions stay registered entities under the calls of the session engine
-- that the server admits.
use foundation_protocol.Prelude.{
  ℕ, String, ◌≡◌, inl, inr, Option, none, some, List, [], ◌∷◌, ◌==◌, arith, Bool-cases, ap, ◌∙◌,
  sym, subst, eq_iff, eq_refl,
}
use foundation_protocol.Dict
use foundation_protocol.Dict.{Dict}
use foundation_protocol.TextSet.{contains}
use foundation_protocol.TextSet.Laws.{contains-add, contains-discard}
use foundation_protocol.Protocol.Errors.{Result, ok}
use foundation_protocol.Protocol.Models.Sessions.{Session, SessionBudget, SessionState}
use foundation_protocol.Stores.Stored.{Stored, AllStored, put-AllStored, revise-AllStored}
use foundation_protocol.Runtime.Revise.{revise, Result-cases}
use foundation_protocol.Runtime.Sessions.{
  is_over, joined, left, with_state, with_roles, give_roles, with_policy, updated, closed_with,
  opened, SessionCall, create_call, join_call, leave_call, update_call, close_call, run, join,
  leave, update,
}
use foundation_protocol.Runtime.Sessions.States
use foundation_protocol.Runtime.Sessions.Calls
use foundation_protocol.App.State.{Stores}
use foundation_protocol.App.Steps.{AllKnown, Admits}

module _ (stores : Stores) (entities : stores.entities.State) where
  abbrev pub Known : Session → Type 0
  Known v = AllKnown stores entities v.participants

  abbrev KeepsKnown : (Session → Result Session) → Type 0
  KeepsKnown f = (a b : Session) → Known a → f a ≡ ok b → Known b

  joined-Known :
      (e : String) (rs : Option (List String)) (now : ℕ)
      → Stored stores.entities entities e
      → KeepsKnown (joined e rs now)
  unfolding joined
  joined-Known e rs now k a b h q x there = elim (Bool-cases (e == x)) [
    | inl p ↦ subst (Stored stores.entities entities) (ground (arith, p, eq_iff e x)) k
    | inr p ↦ h x (ground (arith, q, there, p, contains-add a.participants e x))
  ]

  left-Known : (e : String) (now : ℕ) → KeepsKnown (left e now)
  unfolding left
  left-Known e now a b h q x there =
      h x (ground (arith, q, there, contains-discard a.participants e x))

  closed_with-Known : (reason : Option String) (now : ℕ) → KeepsKnown (closed_with reason now)
  unfolding closed_with
  closed_with-Known reason now a b h q x there = h x (ground (arith, q, there))

  give_roles-Known :
      (e : String) (rs : List String)
      → Stored stores.entities entities e
      → (a : Session) → Known a
      → Known (give_roles e rs a)
  unfolding give_roles
  give_roles-Known e rs k a h x there = elim (Bool-cases (e == x)) [
    | inl p ↦ subst (Stored stores.entities entities) (ground (arith, p, eq_iff e x)) k
    | inr p ↦ h x (ground (arith, there, p, contains-add a.participants e x))
  ]

  with_roles-Known :
      (patch : Dict (List String))
      → AllKnown stores entities (Dict.keys patch)
      → KeepsKnown (with_roles patch)
  unfolding with_roles contains
  with_roles-Known [] k a b h q x there = h x (ground (arith, q, there))
  with_roles-Known ((e, []) ∷ patch) k a b h q x there = cc
  with_roles-Known ((e, r ∷ rs) ∷ patch) k a b h q x there =
      with_roles-Known patch (λ y m. k y (ground (arith, m))) (give_roles e (r ∷ rs) a) b
        (give_roles-Known e (r ∷ rs) (k e (ground (arith, eq_refl e))) a h) q x there

  with_state-same :
      (state : Option SessionState) (a b : Session)
      → with_state state a ≡ ok b
      → b.participants ≡ a.participants
  unfolding with_state
  with_state-same none a b q = ground (arith, q)
  with_state-same (some state) a b q = ground (arith, q)

  updated-Known :
      (policy_ref : Option String) (budget : Option SessionBudget) (state : Option SessionState)
      (patch : Dict (List String)) (now : ℕ)
      → AllKnown stores entities (Dict.keys patch)
      → KeepsKnown (updated policy_ref budget state patch now)
  unfolding updated with_policy
  updated-Known policy_ref budget state patch now k a b h q x there =
      elim (Bool-cases (is_over a.state)) [
        | inl over ↦ cc (rw (over, updated) at q)
        | inr open_ ↦ elim (Result-cases (with_state state (with_policy policy_ref budget a))) [
          | inr (e, p) ↦ cc (rw (open_, p, updated) at q)
          | inl (middle, p) ↦ elim (Result-cases (with_roles patch middle)) [
            | inr (e, r) ↦ cc (rw (open_, p, r, updated) at q)
            | inl (last, r) ↦
                let same : middle.participants ≡ a.participants =
                  with_state-same state (with_policy policy_ref budget a) middle p in
                with_roles-Known patch k middle last
                  (λ y m. h y (sym (ap (λ ps. contains ps y) same) ∙ m)) r x
                  (ground (arith, open_, p, r, q, there))
          ]
        ]
      ]

  module _ (s : stores.sessions.State) (valid : stores.sessions.IsValid s) where
    pub run-Stored :
        (c : SessionCall) (id : String)
        → Stored stores.sessions s id
        → Stored stores.sessions (run stores.sessions c s).1 id
    run-Stored c id (old, e) =
        let (new, there, how) = Calls.run-After stores.sessions s valid id old e c in (new, there)

    revised :
        (key : String) (f : Session → Result Session)
        → ((a b : Session) → f a ≡ ok b → States.IsStep a b)
        → KeepsKnown f
        → AllStored stores.sessions Known s
        → AllStored stores.sessions Known (revise stores.sessions key f s).1
    revised key f steps keeps all =
        revise-AllStored stores.sessions s valid key f (λ a b q. (steps a b q).same_id) Known keeps
          all

    pub run-AllKnown :
        (c : SessionCall)
        → Admits stores entities c
        → AllStored stores.sessions Known s
        → AllStored stores.sessions Known (run stores.sessions c s).1
    unfolding run
    run-AllKnown (create_call n) k all = elim (Calls.create_cases stores.sessions n s) [
      | inl (e, p) ↦ rw p all
      | inr (free, fine, p) ↦
          rw p (put-AllStored stores.sessions s Known (opened n) (unfold opened in k) all)
    ]
    run-AllKnown (join_call key e rs now) k all =
        unfold join in
        revised key (joined e rs now) (States.joined-IsStep e rs now) (joined-Known e rs now k) all
    run-AllKnown (leave_call key e now) k all =
        unfold leave in revised key (left e now) (States.left-IsStep e now) (left-Known e now) all
    run-AllKnown (update_call key policy_ref budget state patch now) k all =
        unfold update in
        revised key (updated policy_ref budget state patch now)
          (States.updated-IsStep policy_ref budget state patch now)
          (updated-Known policy_ref budget state patch now k) all
    run-AllKnown (close_call key reason now) k all =
        elim (Calls.close_cases stores.sessions key reason now s) [
          | inl p ↦ rw p all
          | inr p ↦ rw p (
              revised key (closed_with reason now) (States.closed_with-IsStep reason now)
                (closed_with-Known reason now) all)
        ]
