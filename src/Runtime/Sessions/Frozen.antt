-- ===== src/Runtime/Sessions/Frozen.antt =====
-- Sessions over any sequence of calls: the table is respected, and an end is final.
use foundation_protocol.Prelude.{String, ◌≡◌, inl, inr, true, some, List, [], ◌∷◌, sym, ap, ◌∙◌}
use foundation_protocol.Protocol.Models.Sessions.{Session}
use foundation_protocol.Stores.Interfaces.{SessionStore}
use foundation_protocol.Runtime.Sessions.{is_over, SessionCall, run, run_all}
use foundation_protocol.Runtime.Sessions.States.{Moves}
use foundation_protocol.Runtime.Sessions.Calls.{run-After, run-IsValid}

module _ (store : SessionStore) where
  -- In a valid store, a call of the session engine leaves a stored session in the store, and its
  -- state is the same or one step further along the table of allowed transitions.
  pub run-Moves :
      (s : store.State) (c : SessionCall) (id : String) (old : Session)
      → store.IsValid s
      → store.get s id ≡ some old
      → (new : Session) × (store.get (run store c s).1 id ≡ some new) × Moves old.state new.state
  run-Moves s c id old valid e =
      let (new, there, how) = run-After store s valid id old e c in
      (new, there, elim how [ inl p ↦ inl (ap (λ v. v.state) (sym p)) | inr q ↦ q.moved ])

  run-frozen :
      (s : store.State) (c : SessionCall) (id : String) (old : Session)
      → store.IsValid s
      → store.get s id ≡ some old
      → is_over old.state ≡ true
      → store.get (run store c s).1 id ≡ some old
  run-frozen s c id old valid e over =
      let (new, there, how) = run-After store s valid id old e c in
      elim how [ inl p ↦ there ∙ ap some p | inr q ↦ cc (over, q.was_open) ]

  -- In a valid store, a session that is closed or failed stays exactly as it is under any list of
  -- calls of the session engine.
  pub run_all-frozen :
      (calls : List SessionCall) (s : store.State) (id : String) (old : Session)
      → store.IsValid s
      → store.get s id ≡ some old
      → is_over old.state ≡ true
      → store.get (run_all store calls s) id ≡ some old
  unfolding run_all
  run_all-frozen [] s id old valid e over = e
  run_all-frozen (c ∷ calls) s id old valid e over =
      run_all-frozen calls (run store c s).1 id old (run-IsValid store s valid c)
        (run-frozen s c id old valid e over) over
