-- ===== src/Tests/Tables.antt =====
-- Handle tables of two processes and a table of ports, kernel/src/lib.rs and object_manager.rs. The
-- generator counts.
use pomelo.Prelude.{
  ℕ, none, length, ◌≤◌, ◌<◌, ◌≢◌, ◌+◌, ◌≡◌, refl, true, some, List, [], ◌∷◌, arith, Returns, inl,
  inr,
}
use pomelo.Kernel.Handles.{Generator, ObjectTable, get, lookup_handle, new_handle, free_handle}
use pomelo.Ipc.Param.{from_raw}
use pomelo.Kernel.Handles.Fresh.{Draws, Fresh, new_handle-Fresh}
use pomelo.Kernel.Handles.Refine.{
  HandleOp, meaning, run_ops, MapSteps, SuppliedAll, run_ops-MapSteps,
}
use pomelo.Kernel.Translate.{Tables, translate_handle}
use pomelo.Kernel.Translate.Handle.{Translated, translate_handle-Translated}
use pomelo.Kernel.Ports.{register_port, lookup_port}
use pomelo.Kernel.Ports.Padded.{byte_at}
use pomelo.Kernel.Ports.Named.{lookup_port-register_port}

abbrev pub counting : Generator ℕ
counting = record { next_u32 = λ s. (s, s + 1) }

-- The next two numbers are 0 and 1, and 1 is taken.
abbrev used : ObjectTable ℕ ℕ
used = record { objects = (1, 40) ∷ []; xorshift = 0 }

draws : Draws counting 3 used
unfolding free_handle from_raw get
draws = inr (inr (inl (2, refl)))

new_handle-Fresh_example :
    Returns (λ r. Fresh counting used 41 r.0 r.1) (new_handle counting 3 used 41)
new_handle-Fresh_example = new_handle-Fresh counting 3 used 41 draws

abbrev ops : List (HandleOp ℕ)
ops = HandleOp.insert 41 ∷ HandleOp.find 1 ∷ HandleOp.close 1 ∷ HandleOp.take_out 2 ∷ []

supplied : SuppliedAll counting 3 ops used
supplied = (draws, λ a u e. (tt, λ b v f. (tt, λ c x g. (tt, λ d y h. tt))))

run_ops-MapSteps_example :
    Returns
      (λ r. MapSteps counting 3 (meaning counting 3 used) ops r.0 (meaning counting 3 r.1))
      (run_ops counting 3 ops used)
run_ops-MapSteps_example = run_ops-MapSteps counting 3 ops used supplied

abbrev tables : Tables ℕ
tables = (7, record { objects = (5, 99) ∷ []; xorshift = 0 }) ∷ (8, used) ∷ []

translate_handle-Translated_example :
    Returns
      (Translated counting 7 8 5 99 true (record { objects = (5, 99) ∷ []; xorshift = 0 }) used)
      (translate_handle counting 3 tables 7 8 true (some 5))
unfolding get lookup_handle
translate_handle-Translated_example =
    translate_handle-Translated counting 3 tables 7 8 true 5 99
      (record { objects = (5, 99) ∷ []; xorshift = 0 }) used (omega arith) refl refl refl draws

abbrev srv : List ℕ
srv = 115 ∷ 114 ∷ 118 ∷ 58 ∷ []

lookup_port-register_port_example :
    Returns
      (λ after.
        (lookup_port after srv ≡ some 3)
        × ((other : List ℕ)
            → length other ≤ 8
            → ((i : ℕ) → i < 8 → byte_at srv i ≡ byte_at other i)
            → lookup_port after other ≡ some 3)
        × ((other : List ℕ) (i : ℕ)
            → i < 8
            → byte_at srv i ≢ byte_at other i
            → lookup_port after other ≡ lookup_port [] other)
        × ((other : List ℕ) → 8 < length other → lookup_port after other ≡ none))
      (register_port [] srv 3)
lookup_port-register_port_example = lookup_port-register_port [] srv 3 (omega arith)
