-- ===== src/Kernel/Translate/Handle.antt =====
-- kernel/src/lib.rs: a translated handle is a new one of the receiver for the same object.
use pomelo.Prelude.{
  ℕ, ◌≡◌, ◌≢◌, refl, sym, ◌∙◌, Bool, true, false, Option, some, [], ◌∷◌, Returns, returns,
  Returns-bind, ◌==◌, ==_self, ==_of_ne, if◌then◌else◌, arith,
}
use pomelo.Kernel.Handles.{Generator, ObjectTable, get, lookup_handle, lookup_close_handle}
use pomelo.Kernel.Handles.Fresh.{Draws, Fresh, new_handle-Fresh}
use pomelo.Kernel.Translate.{Tables, put_table, receive, sent, translate_handle}

module _ {S : Type 0} where
  get-put_table :
      (tables : Tables S) (pid j : ℕ) (t u : ObjectTable S ℕ)
      → get tables pid ≡ some t
      → get (put_table tables pid u) j ≡ (if j == pid then some u else get tables j)
  unfolding get put_table
  get-put_table [] pid j t u e = ground arith
  get-put_table (x ∷ xs) pid j t u e = ground (arith, get-put_table xs pid j t u)

  -- The sender's table keeps the handle, or loses it if the handle is moved; the receiver's has a fresh
  -- handle for the object.
  pub record Translated (rng : Generator S) (src dest h object : ℕ) (moved : Bool)
      (from to : ObjectTable S ℕ) (r : Option ℕ × Tables S) : Type 0 where
    pub given : ℕ
    pub received : ObjectTable S ℕ
    pub result : r.0 ≡ some given
    pub fresh : Fresh rng to object given received
    pub at_dest : get r.1 dest ≡ some received
    pub at_src : get r.1 src ≡ some (if moved then (lookup_close_handle from h).1 else from)

  -- The receiver's half, behind the lookup in the sender's table.
  receive_handle :
      (rng : Generator S) (fuel : ℕ) (left : Tables S) (src dest : ℕ) (moved : Bool) (h object : ℕ)
      (from to : ObjectTable S ℕ)
      → src ≢ dest
      → get left src ≡ some (if moved then (lookup_close_handle from h).1 else from)
      → get left dest ≡ some to
      → Draws rng fuel to
      → Returns
          (Translated rng src dest h object moved from to)
          (receive rng fuel left dest (some object))
  unfolding receive
  receive_handle rng fuel left src dest moved h object from to ne at at' d = rw at' (
      Returns-bind (new_handle-Fresh rng fuel to object d) (λ r f. returns (record {
        given = r.0;
        received = r.1;
        result = refl;
        fresh = f;
        at_dest = get-put_table left dest dest to r.1 at' ∙ rw (==_self dest) refl;
        at_src = get-put_table left dest src to r.1 at' ∙ rw (==_of_ne src dest ne) at;
      })))

  -- Between two processes, a handle that the sender has is translated to a fresh handle of the receiver for
  -- the same object, if the generator of the receiver's table draws one in time; a moved handle leaves
  -- the sender's table, any other stays.
  pub translate_handle-Translated :
      (rng : Generator S) (fuel : ℕ) (tables : Tables S) (src dest : ℕ) (moved : Bool)
      (h object : ℕ) (from to : ObjectTable S ℕ)
      → src ≢ dest
      → get tables src ≡ some from
      → get tables dest ≡ some to
      → lookup_handle from h ≡ some object
      → Draws rng fuel to
      → Returns
          (Translated rng src dest h object moved from to)
          (translate_handle rng fuel tables src dest moved (some h))
  unfolding translate_handle
  translate_handle-Translated rng fuel tables src dest moved h object from to ne at at' has d =
      rw (at, translate_handle) (rw has (go moved))
    where
      go :
          (moved : Bool)
          → Returns
              (Translated rng src dest h object moved from to)
              (receive rng fuel (sent rng tables src moved from h) dest (some object))
      go true =
          let left = put_table tables src (lookup_close_handle from h).1 in
          receive_handle rng fuel left src dest true h object from to ne
            (get-put_table tables src src from _ at ∙ rw (==_self src) refl)
            (get-put_table tables src dest from _ at ∙ rw (==_of_ne dest src (λ e. ne (sym e))) at')
            d
      go false = receive_handle rng fuel tables src dest false h object from to ne at at' d
