-- ===== src/Ipc/Param.antt =====
-- kernel/src/ipc.rs and lib.rs: handles, translate parameters, and the descriptor of a handle parameter.
use pomelo.Prelude.{
  ℕ, suc, ◌+◌, ◌-◌, ◌*◌, ◌%◌, ◌^◌, ◌<◌, ◌≡◌, refl, Bool, true, false, Option, none, some, List, [],
  ◌∷◌, map, length, bit_or, ◌==◌, if◌then◌else◌, arith,
}
use pomelo.Prelude.Bits.{low-bit_or}

-- A `Handle` is a number that is not zero; `Handle::from_raw`.
unfoldable pub from_raw : ℕ → Option ℕ
from_raw value = if value == 0 then none else some value

-- `HandleImpl for Option<Handle>`: the raw value, 0 for no handle.
unfoldable pub raw : Option ℕ → ℕ
raw none = 0
raw (some h) = h

-- The handle that stands for the calling process.
abbrev pub calling : ℕ
calling = 0xFFFF_8001

pub data IpcHandles : Type 0 where
  single : Option ℕ → IpcHandles
  multiple : List (Option ℕ) → IpcHandles

unfoldable pub as_slice : IpcHandles → List (Option ℕ)
as_slice (single h) = h ∷ []
as_slice (multiple hs) = hs

pub data TranslateParameter : Type 0 where
  handle : (moved calling_process : Bool) → IpcHandles → TranslateParameter
  static_buffer : (index size ptr : ℕ) → TranslateParameter
  buffer_mapping : (permission size ptr : ℕ) → TranslateParameter

abbrev pub flag : Bool → ℕ → ℕ
flag b n = if b then n else 0

-- `0 | (moved: 16) | (calling_process: 32) | ((len - 1) as u32) << 26`; `len - 1` is a `usize`.
unfoldable pub descriptor : Bool → Bool → ℕ → ℕ
descriptor moved calling_process len =
    bit_or (bit_or (bit_or 0 (flag moved 16)) (flag calling_process 32))
      ((len + 2 ^ 64 - 1) % 2 ^ 64 % 2 ^ 32 * 2 ^ 26 % 2 ^ 32)

low_flags : (m c : Bool) → bit_or (bit_or 0 (flag m 16)) (flag c 32) ≡ flag m 16 + flag c 32
low_flags true true = refl
low_flags true false = refl
low_flags false true = refl
low_flags false false = refl

pub descriptor-sum :
    (m c : Bool) (n : ℕ) → n < 64 → descriptor m c (suc n) ≡ flag m 16 + flag c 32 + n * 67108864
unfolding descriptor
descriptor-sum m c n h =
    let wrap : (suc n + 2 ^ 64 - 1) % 2 ^ 64 % 2 ^ 32 * 2 ^ 26 % 2 ^ 32 ≡ n * 2 ^ 26 =
      omega arith in
    rw (wrap, low_flags m c) (low-bit_or 26 (flag m 16 + flag c 32) n (ground arith))

-- The words of a handle parameter, in order.
unfoldable pub encode : Bool → Bool → List (Option ℕ) → List ℕ
encode moved calling_process hs = descriptor moved calling_process (length hs) ∷ map raw hs
