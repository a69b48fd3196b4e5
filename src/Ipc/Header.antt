-- ===== src/Ipc/Header.antt =====
-- kernel/src/ipc.rs: `IPCHeaderCode` and the header word that a writer's `drop` writes.
use pomelo.Prelude.{ℕ, ◌+◌, ◌*◌, ◌/◌, ◌%◌, ◌^◌, ◌<◌, ◌≡◌, ◌∙◌, bit_or, arith}
use pomelo.Prelude.Bits.{bit_or-low}

pub record IpcHeaderCode : Type 0 where
  pub command_id : ℕ
  pub normal_parameter_count : ℕ
  pub translate_parameter_size : ℕ

-- `From<u32> for IPCHeaderCode`.
unfoldable pub header_from : ℕ → IpcHeaderCode
header_from value = record {
  command_id = value / 2 ^ 16 % 2 ^ 16;
  normal_parameter_count = value / 2 ^ 6 % 2 ^ 6;
  translate_parameter_size = value % 2 ^ 6;
}

-- `command_id << 16 | normal_parameter_count << 6 | translate_parameter_size` over a `u16` and two `u8`.
unfoldable pub header_word : ℕ → ℕ → ℕ → ℕ
header_word command normal translate =
    bit_or (bit_or (command * 2 ^ 16 % 2 ^ 32) (normal * 2 ^ 6)) translate

pub header_word-sum :
    (command normal translate : ℕ)
    → command < 2 ^ 16
    → normal < 64
    → translate < 64
    → header_word command normal translate ≡ command * 65536 + normal * 64 + translate
unfolding header_word
header_word-sum c n t hc hn ht =
    let wrap : c * 2 ^ 16 % 2 ^ 32 ≡ c * 2 ^ 16 = omega arith in
    let high : bit_or (c * 2 ^ 16) (n * 2 ^ 6) ≡ c * 2 ^ 16 + n * 2 ^ 6 =
      bit_or-low 16 c (n * 2 ^ 6) (omega arith) in
    let shift : c * 2 ^ 16 + n * 2 ^ 6 ≡ (c * 1024 + n) * 2 ^ 6 = omega arith in
    rw (wrap, high, shift) (bit_or-low 6 (c * 1024 + n) t (omega arith) ∙ omega arith)

-- A header that a writer leaves is read back, for a 16-bit command and counts of 6 bits.
pub header_from-header_word :
    (command normal translate : ℕ)
    → command < 2 ^ 16
    → normal < 64
    → translate < 64
    → header_from (header_word command normal translate) ≡ record {
      command_id = command;
      normal_parameter_count = normal;
      translate_parameter_size = translate;
    }
unfolding header_from
header_from-header_word c n t hc hn ht = rw (header_word-sum c n t hc hn ht) (ground arith)

pub header_word-lt :
    (command normal translate : ℕ)
    → command < 2 ^ 16
    → normal < 64
    → translate < 64
    → header_word command normal translate < 2 ^ 32
header_word-lt c n t hc hn ht = omega (arith, header_word-sum c n t hc hn ht)
