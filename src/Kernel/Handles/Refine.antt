-- ===== src/Kernel/Handles/Refine.antt =====
-- kernel/src/object_manager.rs: a handle table is a finite map from handles to objects, whatever order its
-- entries have and whatever numbers its generator has given.
use mathlib.Core.Path.{subst}
use pomelo.Prelude.{
  ℕ, ◌≡◌, ◌≢◌, refl, sym, Bool, Bool-cases, inl, inr, Option, none, some, is_some, List, [], ◌∷◌,
  Run, ok, ◌>>=◌, ◌==◌, eq_of_==, ne_of_==, arith, if◌then◌else◌, fun_ext, Returns, returns,
  Returns-bind, Returns-value,
}
use pomelo.Kernel.Handles.{
  Generator, ObjectTable, get, without, lookup_handle, lookup_close_handle, close_handle,
  new_handle,
}
use pomelo.Kernel.Handles.Fresh.{Draws, Fresh, new_handle-Fresh}

-- What a table promises: a partial function.
abbrev pub HandleMap : Type 0 → Type 0
HandleMap T = ℕ → Option T

module _ {T : Type 0} where
  abbrev pub bind : HandleMap T → ℕ → T → HandleMap T
  bind f h value j = if j == h then some value else f j

  abbrev pub unbind : HandleMap T → ℕ → HandleMap T
  unbind f h j = if j == h then none else f j

-- The operations of a process on its handles.
pub data HandleOp (T : Type 0) : Type 0 where
  insert : T → HandleOp T
  take_out close find : ℕ → HandleOp T

-- What an operation shows to its caller.
pub data Answer (T : Type 0) : Type 0 where
  handle : ℕ → Answer T
  object : Option T → Answer T
  closed : Bool → Answer T

module _ {S T : Type 0} (rng : Generator S) (fuel : ℕ) where
  abbrev pub meaning : ObjectTable S T → HandleMap T
  meaning t h = lookup_handle t h

  unfoldable pub run_op : HandleOp T → ObjectTable S T → Run (Answer T × ObjectTable S T)
  unfolding lookup_handle
  run_op (HandleOp.insert value) t = do
    (h, u) ← new_handle rng fuel t value
    ok (Answer.handle h, u)
  run_op (HandleOp.take_out h) t = let (o, u) = lookup_close_handle t h in ok (Answer.object o, u)
  run_op (HandleOp.close h) t = let (b, u) = close_handle t h in ok (Answer.closed b, u)
  run_op (HandleOp.find h) t = ok (Answer.object (lookup_handle t h), t)

  -- The same on a partial function; the handle of an insertion is any that is free and not 0.
  pub data MapStep (f : HandleMap T) : HandleOp T → Answer T → HandleMap T → Type 0 where
    inserts :
        (value : T) (h : ℕ)
        → h ≢ 0
        → f h ≡ none
        → MapStep f (HandleOp.insert value) (Answer.handle h) (bind f h value)
    takes_out : (h : ℕ) → MapStep f (HandleOp.take_out h) (Answer.object (f h)) (unbind f h)
    closes : (h : ℕ) → MapStep f (HandleOp.close h) (Answer.closed (is_some (f h))) (unbind f h)
    finds : (h : ℕ) → MapStep f (HandleOp.find h) (Answer.object (f h)) f

  -- The generator has a free handle for an insertion.
  abbrev pub Supplied : HandleOp T → ObjectTable S T → Type 0
  Supplied (HandleOp.insert value) t = Draws rng fuel t
  Supplied _ t = Unit {0}

  bound :
      (t u : ObjectTable S T) (value : T) (h : ℕ)
      → Fresh rng t value h u
      → bind (meaning t) h value ≡ meaning u
  bound t u value h f = fun_ext (λ j. elim (Bool-cases (j == h)) [
    | inl e ↦ rw (e, eq_of_== j h e) (sym f.stored)
    | inr e ↦ rw e (sym (f.others j (ne_of_== j h e)))
  ])

  get-without :
      (xs : List (ℕ × T)) (h j : ℕ) → get (without xs h) j ≡ (if j == h then none else get xs j)
  unfolding get without
  get-without [] h j = elim (Bool-cases (j == h)) [ inl e ↦ rw e refl | inr e ↦ rw e refl ]
  get-without (x ∷ xs) h j = ground (arith, get-without xs h j)

  unbound :
      (t : ObjectTable S T) (h : ℕ)
      → unbind (meaning t) h ≡ meaning (record t { objects = without t.objects h })
  unfolding lookup_handle
  unbound t h = fun_ext (λ j. sym (get-without t.objects h j))

  run_op-MapStep :
      (op : HandleOp T) (t : ObjectTable S T)
      → Supplied op t
      → Returns (λ r. MapStep (meaning t) op r.0 (meaning r.1)) (run_op op t)
  unfolding run_op lookup_close_handle close_handle lookup_handle
  run_op-MapStep (HandleOp.insert value) t draws =
      Returns-bind (new_handle-Fresh rng fuel t value draws) λ (h, u) f. returns (
        subst (MapStep (meaning t) (HandleOp.insert value) (Answer.handle h)) (bound t u value h f)
          (inserts value h f.nonzero f.free))
  run_op-MapStep (HandleOp.take_out h) t draws =
      returns (subst (MapStep (meaning t) (HandleOp.take_out h) _) (unbound t h) (takes_out h))
  run_op-MapStep (HandleOp.close h) t draws =
      returns (subst (MapStep (meaning t) (HandleOp.close h) _) (unbound t h) (closes h))
  run_op-MapStep (HandleOp.find h) t draws = returns (finds h)

  -- Operations one after the other.
  unfoldable pub run_ops :
      List (HandleOp T) → ObjectTable S T → Run (List (Answer T) × ObjectTable S T)
  unfolding run_op
  run_ops [] t = ok ([], t)
  run_ops (op ∷ ops) t = do (a, u) ← run_op op t; (answers, v) ← run_ops ops u; ok (a ∷ answers, v)

  pub data MapSteps : HandleMap T → List (HandleOp T) → List (Answer T) → HandleMap T → Type 0 where
    stop : {f : HandleMap T} → MapSteps f [] [] f
    go_on :
        {f g h : HandleMap T} {op : HandleOp T} {ops : List (HandleOp T)} {a : Answer T}
        {answers : List (Answer T)}
        → MapStep f op a g
        → MapSteps g ops answers h
        → MapSteps f (op ∷ ops) (a ∷ answers) h

  -- The generator has a free handle for each insertion, when its turn comes.
  abbrev pub SuppliedAll : List (HandleOp T) → ObjectTable S T → Type 0
  SuppliedAll [] t = Unit {0}
  SuppliedAll (op ∷ ops) t =
      Supplied op t
      × ((a : Answer T) (u : ObjectTable S T) → run_op op t ≡ ok (a, u) → SuppliedAll ops u)

  -- If the generator has a free handle whenever one is asked for, any operations on a handle table, one after
  -- the other, end without a panic and answer as they do on a partial function from handles to objects, in
  -- which a new handle is free and not 0; the table that is left has the meaning that is left there.
  pub run_ops-MapSteps :
      (ops : List (HandleOp T)) (t : ObjectTable S T)
      → SuppliedAll ops t
      → Returns (λ r. MapSteps (meaning t) ops r.0 (meaning r.1)) (run_ops ops t)
  unfolding run_ops
  run_ops-MapSteps [] t supplied = returns stop
  run_ops-MapSteps (op ∷ ops) t supplied =
      let ((a, u), e, step) = Returns-value (run_op-MapStep op t supplied.0) in
      rw e (
        Returns-bind (run_ops-MapSteps ops u (supplied.1 a u e))
          λ (answers, v) steps. returns (go_on step steps))
