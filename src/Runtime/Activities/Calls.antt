-- ===== src/Runtime/Activities/Calls.antt =====
-- What a call of the activity engine does to the store, whichever method it is.
use foundation_protocol.Prelude.{
  ℕ, String, ◌≡◌, refl, ◌⊎◌, inl, inr, Bool, true, false, not, Option, none, some, List, [], ◌∷◌,
  arith, eq_iff, Option-cases, ap, ◌∙◌, all_of,
}
use foundation_protocol.Protocol.Errors.{Result, ok, err, Error, fp_error, already_exists}
use foundation_protocol.Protocol.Json.{Fields}
use foundation_protocol.Protocol.Models.Activities.{Activity, failed, init_activity}
use foundation_protocol.Protocol.Models.Signed.{require_non_empty}
use foundation_protocol.Stores.Interfaces.{ActivityStore}
use foundation_protocol.Runtime.Revise.{
  Result-cases, save, revise, revise_old, revise_done, revise_stored, revise_error, revise-IsValid,
}
use foundation_protocol.Runtime.Activities.{
  is_terminal, NewActivity, started, transitioned, completed_with, failed_with, marked_failed,
  canceled_with, start, transition, complete, fail, cancel, ActivityCall, start_call,
  transition_call, complete_call, fail_call, cancel_call, run, run_all,
}
use foundation_protocol.Runtime.Activities.States.{
  IsStep, table_stops, transitioned-IsStep, completed_with-IsStep, canceled_with-IsStep,
  failed_with-IsStep,
}

checked-eq-started :
    (n : NewActivity) (v : Activity) → init_activity (started n) ≡ ok v → v ≡ started n
unfolding init_activity require_non_empty
checked-eq-started n v h = ground arith

module _ (store : ActivityStore) (n : NewActivity) (s : store.base.State) where
  -- `start` raises and leaves the store alone, or stores a submitted activity under a free id.
  pub start_cases :
      ((e : Error) × (start store n s ≡ (err e, s)))
      ⊎ ((store.base.get s n.activity_id ≡ none)
          × (start store n s ≡ (ok (started n), store.base.put s (started n))))
  unfolding start save
  start_cases = elim (Option-cases (store.base.get s n.activity_id)) [
    | inr (old, p) ↦ inl (fp_error already_exists, ground (arith, p))
    | inl p ↦ elim (Result-cases (init_activity (started n))) [
      | inr (e, q) ↦ inl (e, ground (arith, p, q))
      | inl (v, q) ↦ let same = checked-eq-started n v q in inr (p, ground (arith, p, q, same))
    ]
  ]

abbrev pub is_fail : ActivityCall → Bool
is_fail (fail_call _ _ _ _) = true
is_fail _ = false

-- A step of a call: only `fail` takes one from a terminal state.
abbrev CallStep : ActivityCall → Activity → Activity → Type 0
CallStep c old new = IsStep old new × ((is_fail c ≡ true) ⊎ (is_terminal old.state ≡ false))

abbrev After :
    (store : ActivityStore) → ActivityCall → store.base.State → String → Activity → Type 0
After store c s id old =
    (new : Activity) × (store.base.get s id ≡ some new) × ((new ≡ old) ⊎ CallStep c old new)

module _ (store : ActivityStore) (s : store.base.State) (valid : store.base.IsValid s) where
  module _ (id : String) (old : Activity) (e : store.base.get s id ≡ some old) where
    revise-After :
        (c : ActivityCall) (key : String) (f : Activity → Result Activity)
        → ((a b : Activity) → f a ≡ ok b → CallStep c a b)
        → After store c (revise store.base key f s).1 id old
    revise-After c key f step =
        let (new, there, how) =
          revise_old store.base key f (λ a b q. (step a b q).0.same_id) s valid id old e in
        (new, there, elim how [ inl p ↦ inl p | inr q ↦ inr (step old new q) ])

    start-After : (n : NewActivity) → After store (start_call n) (start store n s).1 id old
    start-After n = elim (start_cases store n s) [
      | inl (c, p) ↦ (old, ap (λ r. store.base.get r.1 id) p ∙ e, inl refl)
      | inr (free, p) ↦ (
        old,
        ap (λ r. store.base.get r.1 id) p
            ∙ unfold started in
              ground (arith, store.base.get-put s (started n) id, free, e, eq_iff n.activity_id id),
        inl refl,
      )
    ]

    run-After : (c : ActivityCall) → After store c (run store c s).1 id old
    unfolding run
    run-After (start_call n) = start-After n
    run-After (transition_call key name message patch now) =
        unfold transition in
        revise-After (transition_call key name message patch now) key
          (transitioned name message patch now)
          λ a b q.
            let (step, edge) = transitioned-IsStep name message patch now a b q in
            (step, inr (table_stops a.state b.state edge))
    run-After (complete_call key payload ref now) =
        unfold complete in
        revise-After (complete_call key payload ref now) key (completed_with payload ref now)
          λ a b q.
            let (step, open_) = completed_with-IsStep payload ref now a b q in (step, inr open_)
    run-After (fail_call key message details now) =
        unfold fail in
        revise-After (fail_call key message details now) key (failed_with message details now)
          λ a b q. (failed_with-IsStep message details now a b q, inl refl)
    run-After (cancel_call key reason now) =
        unfold cancel in
        revise-After (cancel_call key reason now) key (canceled_with reason now)
          λ a b q. let (step, open_) = canceled_with-IsStep reason now a b q in (step, inr open_)

    -- In a valid store, a call of the activity engine leaves a stored activity as it is, or makes
    -- one of the moves of the methods and keeps its id, session, owner, initiator and operation.
    pub run-IsStep :
        (c : ActivityCall)
        → (new : Activity) × (store.base.get (run store c s).1 id ≡ some new)
          × ((new ≡ old) ⊎ IsStep old new)
    run-IsStep c =
        let (new, there, how) = run-After c in
        (new, there, elim how [ inl p ↦ inl p | inr q ↦ inr q.0 ])

    run-frozen :
        (c : ActivityCall)
        → is_fail c ≡ false
        → is_terminal old.state ≡ true
        → store.base.get (run store c s).1 id ≡ some old
    run-frozen c quiet over =
        let (new, there, how) = run-After c in
        elim how [
          | inl p ↦ there ∙ ap some p
          | inr q ↦ elim q.1 [ inl p ↦ cc (p, quiet) | inr p ↦ cc (p, over) ]
        ]

  revised-IsValid :
      (key : String) (f : Activity → Result Activity)
      → ((a b : Activity) → f a ≡ ok b → IsStep a b)
      → store.base.IsValid (revise store.base key f s).1
  revised-IsValid key f step =
      revise-IsValid store.base key f (λ a b q. (step a b q).same_id) s valid

  pub run-IsValid : (c : ActivityCall) → store.base.IsValid (run store c s).1
  unfolding run
  run-IsValid (start_call n) = elim (start_cases store n s) [
    | inl (c, p) ↦ rw p valid
    | inr (free, p) ↦ rw p (store.base.put-IsValid s (started n) valid)
  ]
  run-IsValid (transition_call key name message patch now) =
      unfold transition in
      revised-IsValid key (transitioned name message patch now)
        λ a b q. (transitioned-IsStep name message patch now a b q).0
  run-IsValid (complete_call key payload ref now) =
      unfold complete in
      revised-IsValid key (completed_with payload ref now)
        λ a b q. (completed_with-IsStep payload ref now a b q).0
  run-IsValid (fail_call key message details now) =
      unfold fail in
      revised-IsValid key (failed_with message details now) (failed_with-IsStep message details now)
  run-IsValid (cancel_call key reason now) =
      unfold cancel in
      revised-IsValid key (canceled_with reason now)
        λ a b q. (canceled_with-IsStep reason now a b q).0

-- A call of the activity engine that raises leaves the store as it was.
pub run-unchanged :
    (store : ActivityStore) (s : store.base.State) (c : ActivityCall) (e : Error)
    → (run store c s).0 ≡ err e
    → (run store c s).1 ≡ s
unfolding run
run-unchanged store s (start_call n) e h = elim (start_cases store n s) [
  | inl (_, p) ↦ ap (λ r. r.1) p
  | inr (_, p) ↦ cc (h, ap (λ r. r.0) p)
]
run-unchanged store s (transition_call key name message patch now) e h =
    unfold transition in revise_error store.base key (transitioned name message patch now) s e h
run-unchanged store s (complete_call key payload ref now) e h =
    unfold complete in revise_error store.base key (completed_with payload ref now) s e h
run-unchanged store s (fail_call key message details now) e h =
    unfold fail in revise_error store.base key (failed_with message details now) s e h
run-unchanged store s (cancel_call key reason now) e h =
    unfold cancel in revise_error store.base key (canceled_with reason now) s e h

-- In a valid store, an activity in a terminal state stays exactly as it is under any list of calls
-- of the activity engine that has no fail.
pub run_all-final :
    (store : ActivityStore) (calls : List ActivityCall) (s : store.base.State) (id : String)
    (old : Activity)
    → store.base.IsValid s
    → store.base.get s id ≡ some old
    → is_terminal old.state ≡ true
    → all_of (λ c. not (is_fail c)) calls ≡ true
    → store.base.get (run_all store calls s) id ≡ some old
unfolding run_all
run_all-final store [] s id old valid e over quiet = e
run_all-final store (c ∷ calls) s id old valid e over quiet =
    run_all-final store calls (run store c s).1 id old (run-IsValid store s valid c)
      (run-frozen store s valid id old e c (ground arith) over) over (ground arith)

-- In a valid store, fail succeeds on a stored activity whatever its state is, a terminal one
-- included, and the activity that is stored afterwards is in the state FAILED.
pub fail_overwrites :
    (store : ActivityStore) (s : store.base.State) (id message : String) (details : Option Fields)
    (now : ℕ) (old : Activity)
    → store.base.IsValid s
    → store.base.get s id ≡ some old
    → (new : Activity) × ((fail store id message details now s).0 ≡ ok new)
      × (store.base.get (fail store id message details now s).1 id ≡ some new)
      × (new.state ≡ failed)
unfolding fail
fail_overwrites store s id message details now old valid e =
    let d =
      revise_done store.base id (failed_with message details now) s old
        (marked_failed message details now old) e refl in
    (
      marked_failed message details now old,
      ap (λ r. r.0) d,
      revise_stored store.base id (failed_with message details now)
          (λ a b q. (failed_with-IsStep message details now a b q).same_id) s valid
          (marked_failed message details now old) (ap (λ r. r.0) d),
      refl,
    )
