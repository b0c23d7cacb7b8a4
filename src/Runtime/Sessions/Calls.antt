-- ===== src/Runtime/Sessions/Calls.antt =====
-- What a call of the session engine does to the store, whichever method it is.
use foundation_protocol.Prelude.{
  ℕ, String, ◌≡◌, refl, ◌⊎◌, inl, inr, Option, none, some, arith, eq_iff, Bool-cases, Option-cases,
  ap, ◌∙◌,
}
use foundation_protocol.Protocol.Errors.{Result, ok, err, Error, fp_error, already_exists}
use foundation_protocol.Protocol.Models.Sessions.{closed, Session, init_session}
use foundation_protocol.Protocol.Models.Signed.{require_non_empty}
use foundation_protocol.Stores.Interfaces.{SessionStore}
use foundation_protocol.Runtime.Revise.{
  Result-cases, fetch, save, revise, revise_old, revise_error, revise-IsValid,
}
use foundation_protocol.Runtime.Sessions.{
  same_state, joined, left, updated, closed_with, create, checked, opened, NewSession, join, leave,
  update, close, SessionCall, create_call, join_call, leave_call, update_call, close_call, run,
}
use foundation_protocol.Runtime.Sessions.States.{
  IsStep, joined-IsStep, left-IsStep, updated-IsStep, closed_with-IsStep,
}

checked-eq-opened : (n : NewSession) (v : Session) → checked n ≡ ok v → v ≡ opened n
unfolding checked init_session require_non_empty
checked-eq-opened n v h = ground arith

module _ (store : SessionStore) (n : NewSession) (s : store.State) where
  -- `create` raises and leaves the store alone, or stores a new session under a free id.
  pub create_cases :
      ((e : Error) × (create store n s ≡ (err e, s)))
      ⊎ ((store.get s n.session_id ≡ none)
          × (checked n ≡ ok (opened n))
          × (create store n s ≡ (ok (opened n), store.put s (opened n))))
  unfolding create save
  create_cases = elim (Option-cases (store.get s n.session_id)) [
    | inr (old, p) ↦ inl (fp_error already_exists, ground (arith, p))
    | inl p ↦ elim (Result-cases (checked n)) [
      | inr (e, q) ↦ inl (e, ground (arith, p, q))
      | inl (v, q) ↦
          let same = checked-eq-opened n v q in inr (p, q ∙ ap ok same, ground (arith, p, q, same))
    ]
  ]

module _ (store : SessionStore) (session_id : String) (reason : Option String) (now : ℕ)
    (s : store.State) where
  -- `close` changes nothing, or is the revision that sets the state.
  pub close_cases :
      ((close store session_id reason now s).1 ≡ s)
      ⊎ (close store session_id reason now s ≡ revise store session_id (closed_with reason now) s)
  unfolding close fetch
  close_cases = elim (Option-cases (store.get s session_id)) [
    | inl p ↦ inl (ground (arith, p))
    | inr (v, p) ↦ elim (Bool-cases (same_state v.state closed)) [
      | inl q ↦ inl (ground (arith, p, q))
      | inr q ↦ inr (ground (arith, p, q))
    ]
  ]

same_id_of :
    (f : Session → Result Session)
    → ((old new : Session) → f old ≡ ok new → IsStep old new)
    → (old new : Session) → f old ≡ ok new
    → new.session_id ≡ old.session_id
same_id_of f step old new e = (step old new e).same_id

-- What a call makes of a session that is stored.
abbrev pub After : (store : SessionStore) → store.State → String → Session → Type 0
After store s id old =
    (new : Session) × (store.get s id ≡ some new) × ((new ≡ old) ⊎ IsStep old new)

module _ (store : SessionStore) (s : store.State) (valid : store.IsValid s) (id : String)
    (old : Session) (e : store.get s id ≡ some old) where
  revise-After :
      (key : String) (f : Session → Result Session)
      → ((a b : Session) → f a ≡ ok b → IsStep a b)
      → After store (revise store key f s).1 id old
  revise-After key f step =
      let (new, there, how) = revise_old store key f (same_id_of f step) s valid id old e in
      (new, there, elim how [ inl p ↦ inl p | inr q ↦ inr (step old new q) ])

  create-After : (n : NewSession) → After store (create store n s).1 id old
  create-After n = elim (create_cases store n s) [
    | inl (c, p) ↦ (old, ap (λ r. store.get r.1 id) p ∙ e, inl refl)
    | inr (free, _, p) ↦ (
      old,
      ap (λ r. store.get r.1 id) p
          ∙ unfold opened in
            ground (arith, store.get-put s (opened n) id, free, e, eq_iff n.session_id id),
      inl refl,
    )
  ]

  -- A call leaves a stored session as it is, or takes it one step along the table.
  pub run-After : (c : SessionCall) → After store (run store c s).1 id old
  unfolding run
  run-After (create_call n) = create-After n
  run-After (join_call key entity_id roles now) =
      unfold join in
      revise-After key (joined entity_id roles now) (joined-IsStep entity_id roles now)
  run-After (leave_call key entity_id now) =
      unfold leave in revise-After key (left entity_id now) (left-IsStep entity_id now)
  run-After (update_call key policy_ref budget state patch now) =
      unfold update in
      revise-After key (updated policy_ref budget state patch now)
        (updated-IsStep policy_ref budget state patch now)
  run-After (close_call key reason now) = elim (close_cases store key reason now s) [
    | inl p ↦ (old, ap (λ t. store.get t id) p ∙ e, inl refl)
    | inr p ↦ rw p (revise-After key (closed_with reason now) (closed_with-IsStep reason now))
  ]

module _ (store : SessionStore) (s : store.State) (valid : store.IsValid s) where
  revised-IsValid :
      (key : String) (f : Session → Result Session)
      → ((a b : Session) → f a ≡ ok b → IsStep a b)
      → store.IsValid (revise store key f s).1
  revised-IsValid key f step = revise-IsValid store key f (same_id_of f step) s valid

  pub run-IsValid : (c : SessionCall) → store.IsValid (run store c s).1
  unfolding run
  run-IsValid (create_call n) = elim (create_cases store n s) [
    | inl (c, p) ↦ rw p valid
    | inr (free, _, p) ↦ rw p (store.put-IsValid s (opened n) valid)
  ]
  run-IsValid (join_call key entity_id roles now) =
      unfold join in
      revised-IsValid key (joined entity_id roles now) (joined-IsStep entity_id roles now)
  run-IsValid (leave_call key entity_id now) =
      unfold leave in revised-IsValid key (left entity_id now) (left-IsStep entity_id now)
  run-IsValid (update_call key policy_ref budget state patch now) =
      unfold update in
      revised-IsValid key (updated policy_ref budget state patch now)
        (updated-IsStep policy_ref budget state patch now)
  run-IsValid (close_call key reason now) = elim (close_cases store key reason now s) [
    | inl p ↦ rw p valid
    | inr p ↦ rw p (revised-IsValid key (closed_with reason now) (closed_with-IsStep reason now))
  ]

-- A call of the session engine that raises leaves the store as it was.
pub run-error :
    (store : SessionStore) (s : store.State) (c : SessionCall) (e : Error)
    → (run store c s).0 ≡ err e
    → (run store c s).1 ≡ s
unfolding run
run-error store s (create_call n) e h = elim (create_cases store n s) [
  | inl (_, p) ↦ ap (λ r. r.1) p
  | inr (_, _, p) ↦ cc (h, ap (λ r. r.0) p)
]
run-error store s (join_call key entity_id roles now) e h =
    unfold join in revise_error store key (joined entity_id roles now) s e h
run-error store s (leave_call key entity_id now) e h =
    unfold leave in revise_error store key (left entity_id now) s e h
run-error store s (update_call key policy_ref budget state patch now) e h =
    unfold update in revise_error store key (updated policy_ref budget state patch now) s e h
run-error store s (close_call key reason now) e h = elim (close_cases store key reason now s) [
  | inl p ↦ p
  | inr p ↦ rw p (revise_error store key (closed_with reason now) s e (rw p at h))
]
