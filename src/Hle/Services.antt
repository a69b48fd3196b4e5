-- ===== src/Hle/Services.antt =====
-- hle/src/service/srv.rs: the services that the manager knows, and their lookup.
pub mod First
pub mod Manager
use pomelo.Prelude.{
  ℕ, zero, suc, Bool, true, false, Option, none, some, List, [], ◌∷◌, ◌++◌, Run, ok, panic, ◌>>=◌,
  ◌==◌, if◌then◌else◌,
}
use pomelo.Kernel.Ports.{same_name}

-- `name` has eight bytes, of which the first `name_len` count.
pub record Service : Type 0 where
  pub name : List ℕ
  pub name_len : ℕ
  pub max_sessions : ℕ
  pub client_port : ℕ

-- `&name[0..len]`.
unfoldable pub slice_to : List ℕ → ℕ → Run (List ℕ)
slice_to bytes zero = ok []
slice_to [] (suc n) = panic
slice_to (b ∷ bytes) (suc n) = do more ← slice_to bytes n; ok (b ∷ more)

unfoldable pub same_bytes : Service → List ℕ → ℕ → Run Bool
same_bytes service name name_len = do
  a ← slice_to service.name service.name_len
  b ← slice_to name name_len
  ok (same_name a b)

-- The test of the closure.
unfoldable pub answers : Service → List ℕ → ℕ → Run Bool
unfolding same_bytes
answers service name name_len =
    if service.name_len == name_len then same_bytes service name name_len else ok false

abbrev pub found_or : Bool → Service → Run (Option Service) → Run (Option Service)
found_or true service rest = ok (some service)
found_or false service rest = rest

unfoldable pub find_service : List Service → List ℕ → ℕ → Run (Option Service)
unfolding answers
find_service [] name name_len = ok none
find_service (service ∷ services) name name_len =
    let rest = find_service services name name_len in
    answers service name name_len >>= λ hit. found_or hit service rest

unfoldable pub register_service : List Service → Service → List Service
register_service services service = services ++ service ∷ []
