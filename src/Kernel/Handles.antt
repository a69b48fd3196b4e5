-- ===== src/Kernel/Handles.antt =====
-- kernel/src/object_manager.rs and the handles of a process in kernel/src/lib.rs. The numbers come from
-- the xorshift crate's generator.
pub mod Fresh
pub mod Refine
use pomelo.Prelude.{
  ℕ, zero, suc, Bool, Option, none, some, List, [], ◌∷◌, Run, ok, panic, ◌==◌, if◌then◌else◌,
  is_some,
}
use pomelo.Ipc.Param.{from_raw}

-- `Rng::next_u32`.
pub record Generator (S : Type 0) : Type 0 where
  pub next_u32 : S → ℕ × S

pub record ObjectTable (S T : Type 0) : Type 0 where
  pub objects : List (ℕ × T)
  pub xorshift : S

module _ {T : Type 0} where
  -- `BTreeMap::get` and `remove`.
  unfoldable pub get : List (ℕ × T) → ℕ → Option T
  get [] h = none
  get (x ∷ xs) h = if x.0 == h then some x.1 else get xs h

  unfoldable pub without : List (ℕ × T) → ℕ → List (ℕ × T)
  without [] h = []
  without (x ∷ xs) h = if x.0 == h then without xs h else x ∷ without xs h

module _ {S T : Type 0} where
  -- `ObjectTable::lookup`; `CommonProcess::lookup_handle`.
  unfoldable pub lookup_handle : ObjectTable S T → ℕ → Option T
  unfolding get
  lookup_handle t h = get t.objects h

  -- `ObjectTable::remove`; `CommonProcess::lookup_close_handle`.
  unfoldable pub lookup_close_handle : ObjectTable S T → ℕ → Option T × ObjectTable S T
  unfolding get without
  lookup_close_handle t h = (get t.objects h, record t { objects = without t.objects h })

  -- `CommonProcess::close_handle`.
  unfoldable pub close_handle : ObjectTable S T → ℕ → Bool × ObjectTable S T
  unfolding get without
  close_handle t h = (is_some (get t.objects h), record t { objects = without t.objects h })

  -- A number that is a handle and that the table does not have.
  unfoldable pub free_handle : ObjectTable S T → Option ℕ → Option ℕ
  unfolding get
  free_handle t none = none
  free_handle t (some h) = if is_some (get t.objects h) then none else some h

  module _ (rng : Generator S) where
    -- The loop of `ObjectTable::insert`, with fuel; the run that needs more is a panic here.
    unfoldable pub new_handle : ℕ → ObjectTable S T → T → Run (ℕ × ObjectTable S T)
    unfolding free_handle
    new_handle zero t value = panic
    new_handle (suc fuel) t value =
        let (n, s) = rng.next_u32 t.xorshift in
        elim (free_handle t (from_raw n)) [
          | none ↦ new_handle fuel (record t { xorshift = s }) value
          | some h ↦ ok (h, record { objects = (h, value) ∷ t.objects; xorshift = s })
        ]
