-- ===== src/Kernel/Handles/Fresh.antt =====
-- kernel/src/object_manager.rs: a new handle is fresh, and closing it takes it back.
use mathlib.Core.Path.{subst}
use pomelo.Prelude.{
  ℕ, zero, suc, ◌≡◌, ◌≢◌, ◌⊎◌, inl, inr, Bool-cases, Option-cases, refl, sym, ap, ◌∙◌, Option, none,
  some, List, [], ◌∷◌, Returns, returns, Returns-mono, arith, ◌==◌, ==_self, ==_of_ne, some-inj,
  eq_of_==, ne_of_==,
}
use pomelo.Ipc.Param.{from_raw}
use pomelo.Kernel.Handles.{
  Generator, ObjectTable, get, without, lookup_handle, lookup_close_handle, free_handle, new_handle,
}

from_raw-nonzero : (n h : ℕ) → from_raw n ≡ some h → h ≢ 0
unfolding from_raw
from_raw-nonzero n h e = ground arith

module _ {S T : Type 0} (rng : Generator S) where
  -- Of the next numbers of the generator, as many as there is fuel, one is a handle that the table
  -- does not have.
  abbrev pub Draws : ℕ → ObjectTable S T → Type 0
  Draws zero t = ⊥
  Draws (suc fuel) t =
      ((h : ℕ) × (free_handle t (from_raw (rng.next_u32 t.xorshift).0) ≡ some h))
      ⊎ Draws fuel (record t { xorshift = (rng.next_u32 t.xorshift).1 })

  -- The handle `h` was not in the table `t`, and `u` has the value under it and is `t` otherwise.
  pub record Fresh (t : ObjectTable S T) (value : T) (h : ℕ) (u : ObjectTable S T) : Type 0 where
    pub nonzero : h ≢ 0
    pub free : lookup_handle t h ≡ none
    pub stored : lookup_handle u h ≡ some value
    pub others : (j : ℕ) → j ≢ h → lookup_handle u j ≡ lookup_handle t j
    pub closed : (j : ℕ) → lookup_handle (lookup_close_handle u h).1 j ≡ lookup_handle t j

  free_handle-free :
      (t : ObjectTable S T) (o : Option ℕ) (h : ℕ)
      → free_handle t o ≡ some h
      → (o ≡ some h) × (get t.objects h ≡ none)
  unfolding free_handle
  free_handle-free t none h e = ground arith
  free_handle-free t (some k) h e = elim (Option-cases (get t.objects k)) [
    | inl gone ↦
        let same : k ≡ h = some-inj (rw gone at e) in
        (ap some same, subst (λ k. get t.objects k ≡ none) same gone)
    | inr (v, there) ↦ ground (arith, rw there at e)
  ]

  get-without_same : (xs : List (ℕ × T)) (h : ℕ) → get (without xs h) h ≡ none
  unfolding get without
  get-without_same [] h = refl
  get-without_same (x ∷ xs) h = elim (Bool-cases (x.0 == h)) [
    | inl t ↦ rw t (get-without_same xs h)
    | inr f ↦ rw f (rw f (get-without_same xs h))
  ]

  get-without_other : (xs : List (ℕ × T)) (h j : ℕ) → j ≢ h → get (without xs h) j ≡ get xs j
  unfolding get without
  get-without_other [] h j ne = refl
  get-without_other (x ∷ xs) h j ne = ground (arith, get-without_other xs h j ne)

  inserted :
      (t : ObjectTable S T) (value : T) (h : ℕ) (s : S)
      → h ≢ 0
      → get t.objects h ≡ none
      → Fresh t value h (record { objects = (h, value) ∷ t.objects; xorshift = s })
  unfolding lookup_handle lookup_close_handle get without
  inserted t value h s nz gone = record {
    nonzero = nz;
    free = gone;
    stored = rw (==_self h) refl;
    others = λ j ne. rw (==_of_ne h j (λ e. ne (sym e))) refl;
    closed = λ j. rw (==_self h) (elim (Bool-cases (j == h)) [
      | inl e ↦ rw (eq_of_== j h e) (get-without_same t.objects h ∙ sym gone)
      | inr f ↦ get-without_other t.objects h j (ne_of_== j h f)
    ]);
  }

  -- If the generator's next numbers, as many as there is fuel, have one that is a handle and not in the
  -- table, a value that is put into the table gets a handle that is not 0 and was not in use. It is found
  -- under the handle, every other handle is as before, and closing the handle gives back the old table.
  pub new_handle-Fresh :
      (fuel : ℕ) (t : ObjectTable S T) (value : T)
      → Draws fuel t
      → Returns (λ r. Fresh t value r.0 r.1) (new_handle rng fuel t value)
  unfolding new_handle lookup_handle
  new_handle-Fresh zero t value d = absurd d
  new_handle-Fresh (suc fuel) t value d =
      elim (Option-cases (free_handle t (from_raw (rng.next_u32 t.xorshift).0))) [
        | inl used ↦
            rw (used, new_handle)
              (elim d [
                | inl (h, e) ↦ absurd (ground (arith, sym used ∙ e))
                | inr later ↦
                    Returns-mono
                      (new_handle-Fresh fuel (record t { xorshift = (rng.next_u32 t.xorshift).1 })
                        value later)
                      (λ r f. record {
                        nonzero = f.nonzero;
                        free = f.free;
                        stored = f.stored;
                        others = f.others;
                        closed = f.closed;
                      })
              ])
        | inr (h, drawn) ↦
            let free = free_handle-free t _ h drawn in
            rw (drawn, new_handle)
              (returns (inserted t value h _ (from_raw-nonzero _ h free.0) free.1))
      ]
