-- ===== src/Kernel/Ports.antt =====
-- kernel/src/lib.rs: `KernelImpl::register_port` and `lookup_port`.
pub mod Named
pub mod Padded
use pomelo.Prelude.{
  ℕ, zero, suc, Bool, true, false, ◌&&◌, Option, none, some, List, [], ◌∷◌, length, Run, ok, panic,
  leb, ltb, ◌==◌, if◌then◌else◌,
}

-- The first `n` bytes of a name, behind which `short_name` is 0.
unfoldable pub padded : ℕ → List ℕ → List ℕ
padded zero name = []
padded (suc n) [] = 0 ∷ padded n []
padded (suc n) (b ∷ bs) = b ∷ padded n bs

abbrev pub short_name : List ℕ → List ℕ
short_name name = padded 8 name

abbrev pub same_name : List ℕ → List ℕ → Bool
same_name [] [] = true
same_name [] (b ∷ bs) = false
same_name (a ∷ more) [] = false
same_name (a ∷ more) (b ∷ bs) = (a == b) && same_name more bs

-- `HashMap<[u8; 8], KTypedObject<KClientPort>>`.
abbrev pub PortTable : Type 0
PortTable = List (List ℕ × ℕ)

unfoldable pub port_at : PortTable → List ℕ → Option ℕ
port_at [] name = none
port_at (x ∷ xs) name = if same_name x.0 name then some x.1 else port_at xs name

unfoldable pub with_port : PortTable → List ℕ → ℕ → PortTable
with_port [] name port = (name, port) ∷ []
with_port (x ∷ xs) name port =
    if same_name x.0 name then (name, port) ∷ xs else x ∷ with_port xs name port

-- A name of more than eight bytes is out of the range of `short_name`.
unfoldable pub register_port : PortTable → List ℕ → ℕ → Run PortTable
unfolding with_port
register_port ports name port =
    if leb (length name) 8 then ok (with_port ports (short_name name) port) else panic

unfoldable pub lookup_port : PortTable → List ℕ → Option ℕ
unfolding port_at
lookup_port ports name = if ltb 8 (length name) then none else port_at ports (short_name name)
