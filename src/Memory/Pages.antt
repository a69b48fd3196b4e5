-- ===== src/Memory/Pages.antt =====
-- kernel/src/memory/page_slice.rs and phys.rs: pages as one run of bytes.
use pomelo.Prelude.{
  ℕ, ◌+◌, ◌*◌, ◌≤◌, ◌≡◌, refl, List, length, Run, ok, panic, leb, leb_of_le, if◌then◌else◌,
}
use pomelo.Prelude.Buffer.{Buffer, slice, splice}
use pomelo.Memory.Interface.{Memory}

abbrev pub page_size : ℕ
page_size = 4096

-- `PhysicalMemory::new`: so many pages of zeros.
unfoldable pub new_pages : ℕ → Buffer
new_pages pages = record { len = pages * page_size; at = λ i. 0 }

-- `Memory for PageSlice`; `&self.bytes()[addr..(addr + len)]` panics outside the pages.
unfoldable pub pages_read : Buffer → ℕ → ℕ → Run (List ℕ)
pages_read b addr n = if leb (addr + n) b.len then ok (slice b.at addr n) else panic

unfoldable pub pages_write : Buffer → ℕ → List ℕ → Run Buffer
pages_write b addr bytes =
    if leb (addr + length bytes) b.len then ok (record b { at = splice b.at addr bytes }) else panic

pub pages_read-ok :
    (b : Buffer) (addr n : ℕ) → addr + n ≤ b.len → pages_read b addr n ≡ ok (slice b.at addr n)
unfolding pages_read
pages_read-ok b addr n h = rw (leb_of_le _ _ h)

pub pages_write-ok :
    (b : Buffer) (addr : ℕ) (bytes : List ℕ)
    → addr + length bytes ≤ b.len
    → (d : Buffer) × (pages_write b addr bytes ≡ ok d)
      × (d.len ≡ b.len)
      × (d.at ≡ splice b.at addr bytes)
unfolding pages_write
pages_write-ok b addr bytes h =
    (record b { at = splice b.at addr bytes }, rw (leb_of_le _ _ h), refl, refl)

-- Pages are a memory.
abbrev pub pages_memory : Memory Buffer
pages_memory = record {
  read = pages_read;
  write = pages_write;
  size = λ b. b.len;
  content = λ b. b.at;
  read-ok = pages_read-ok;
  write-ok = pages_write-ok;
}
