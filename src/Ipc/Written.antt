-- ===== src/Ipc/Written.antt =====
-- kernel/src/ipc.rs: what a writer has put into its buffer.
use pomelo.Prelude.{
  ℕ, zero, suc, ◌+◌, ◌*◌, ◌^◌, ◌≤◌, ◌<◌, ◌≡◌, refl, sym, ◌∙◌, inr, Bool, Option, none, some, List,
  [], ◌∷◌, ◌++◌, map, length, ok, Returns, returns, Returns-bind, arith, length-append,
  append_assoc, append-nil, All, ==_of_eq,
}
use pomelo.Prelude.Buffer.{Buffer, ByteOrder, word_at, with_word, word_at_self}
use pomelo.Ipc.Header.{header_word, header_word-lt}
use pomelo.Ipc.Param.{IpcHandles, as_slice, raw, descriptor, descriptor-sum, encode, handle}
use pomelo.Ipc.Words.{Word, Holds, put_word-ok, Holds-with_word, Holds-snoc}
use pomelo.Ipc.Writer.{
  IpcWriter, write, fresh, new_request, write_normal, write_handles, write_translate, finish,
  count_translate,
}

-- A handle's number is a word and not zero.
abbrev pub IsHandle : Option ℕ → Type 0
IsHandle none = Unit {0}
IsHandle (some h) = (0 < h) × Word h

raw-Word : (h : Option ℕ) → IsHandle h → Word (raw h)
unfolding raw
raw-Word none v = omega arith
raw-Word (some h) v = v.1

descriptor-Word : (m c : Bool) (n : ℕ) → 0 < n → n ≤ 64 → Word (descriptor m c n)
descriptor-Word m c (suc n) pos few = rw (descriptor-sum m c n (omega arith)) (ground arith)
descriptor-Word m c zero pos few = absurd (omega arith)

module _ (bo : ByteOrder) where
  -- The writer's counts, and the words behind the header.
  pub record Written (command normal translate size : ℕ) (ws : List ℕ) (wr : IpcWriter)
      : Type 0 where
    pub same_command : wr.command_id ≡ command
    pub normals : wr.normal_parameter_count ≡ normal
    pub translates : wr.translate_parameter_size ≡ translate
    pub same_len : wr.buf.len ≡ size
    pub place : wr.pos ≡ 4 + 4 * length ws
    pub holds : Holds bo wr.buf 4 ws

  pub write-ok :
      (wr : IpcWriter) (w : ℕ)
      → wr.pos + 4 ≤ wr.buf.len
      → write bo wr w ≡ ok (record wr { buf = with_word bo wr.buf wr.pos w; pos = wr.pos + 4 })
  unfolding write
  write-ok wr w h = rw (put_word-ok bo wr.buf wr.pos w h)

  module _ {c n t size : ℕ} {ws : List ℕ} {wr : IpcWriter} (v : Written c n t size ws wr) where
    -- A word more.
    write-Written :
        (w : ℕ)
        → 8 + 4 * length ws ≤ size
        → Word w
        → Returns (Written c n t size (ws ++ w ∷ [])) (write bo wr w)
    write-Written w room small = rw (write-ok wr w (omega (arith, v.place, v.same_len))) (
        returns (record {
          same_command = v.same_command;
          normals = v.normals;
          translates = v.translates;
          same_len = v.same_len;
          place = omega (arith, v.place, length-append ws (w ∷ []));
          holds =
              Holds-snoc bo wr.buf ws 4 wr.pos w v.place (omega (arith, v.place, v.same_len)) small
                v.holds;
        }))

  pub new_request-Written :
      (command : ℕ) (b : Buffer)
      → 4 ≤ b.len
      → Returns (Written command 0 0 b.len []) (new_request bo command b)
  unfolding new_request
  new_request-Written command b h = rw (write-ok (fresh bo command b) 0 h) (
      returns (record {
        same_command = refl;
        normals = refl;
        translates = refl;
        same_len = refl;
        place = refl;
        holds = tt;
      }))

  pub write_normal-Written :
      {c n size : ℕ} {ws : List ℕ} {wr : IpcWriter} (w : ℕ)
      → Written c n 0 size ws wr
      → n < 63
      → 8 + 4 * length ws ≤ size
      → Word w
      → Returns (Written c (suc n) 0 size (ws ++ w ∷ [])) (write_normal bo wr w)
  unfolding write_normal
  write_normal-Written {wr} w v few room small =
      rw (==_of_eq wr.translate_parameter_size 0 v.translates) (
        write-Written
          (record {
            same_command = v.same_command;
            normals = omega (arith, v.normals);
            translates = v.translates;
            same_len = v.same_len;
            place = v.place;
            holds = v.holds;
          })
          w room small)

  counted :
      {c n t size : ℕ} {ws : List ℕ} {wr : IpcWriter}
      → Written c n t size ws wr
      → t < 64
      → Written c n (suc t) size ws (count_translate bo wr)
  counted v few = record {
    same_command = v.same_command;
    normals = v.normals;
    translates = omega (arith, v.translates);
    same_len = v.same_len;
    place = v.place;
    holds = v.holds;
  }

  -- The counts and words after a part are given by equations.
  write_handles-Written :
      {c n size : ℕ} (t : ℕ) (ws : List ℕ) {wr : IpcWriter} (hs : List (Option ℕ)) (t' : ℕ)
      (us : List ℕ)
      → Written c n t size ws wr
      → t' ≡ t + length hs
      → t' < 64
      → us ≡ ws ++ map raw hs
      → 4 + 4 * length ws + 4 * length hs ≤ size
      → All IsHandle hs
      → Returns (Written c n t' size us) (write_handles bo wr hs)
  unfolding write_handles
  write_handles-Written t ws [] t' us v e few u room all =
      let same : t' ≡ t = omega arith in rw (same, u, append-nil) (returns v)
  write_handles-Written t ws (h ∷ hs) t' us v e few u room all =
      Returns-bind (write-Written v (raw h) (omega arith) (raw-Word h all.0)) λ wr' v'.
        write_handles-Written (suc t) (ws ++ raw h ∷ []) hs t' us (counted v' (omega arith))
          (omega arith) few (u ∙ sym (append_assoc ws (raw h ∷ []) (map raw hs)))
          (omega (arith, length-append ws (raw h ∷ []))) all.1

  pub write_translate-Written :
      {c n size : ℕ} (t : ℕ) (ws : List ℕ) {wr : IpcWriter} (m p : Bool) (hs : IpcHandles) (t' : ℕ)
      → Written c n t size ws wr
      → t' ≡ t + 1 + length (as_slice hs)
      → t' < 64
      → 8 + 4 * length ws + 4 * length (as_slice hs) ≤ size
      → 0 < length (as_slice hs)
      → All IsHandle (as_slice hs)
      → Returns
          (Written c n t' size (ws ++ encode m p (as_slice hs)))
          (write_translate bo wr (handle m p hs))
  unfolding write_translate encode
  write_translate-Written t ws m p hs t' v e few room some_handle all =
      let d = descriptor m p (length (as_slice hs)) in
      Returns-bind
        (write-Written (counted v (omega arith)) d (omega arith)
          (descriptor-Word m p (length (as_slice hs)) some_handle (omega arith)))
        λ wr' v'.
          write_handles-Written (suc t) (ws ++ d ∷ []) (as_slice hs) t'
            (ws ++ d ∷ map raw (as_slice hs)) v' (omega arith) few
            (sym (append_assoc ws (d ∷ []) (map raw (as_slice hs))))
            (omega (arith, length-append ws (d ∷ []))) all

  -- A buffer with its header and the words behind it.
  pub record Sent (c n t size : ℕ) (ws : List ℕ) (b : Buffer) : Type 0 where
    pub same_len : b.len ≡ size
    pub first : word_at bo b 0 ≡ header_word c n t
    pub holds : Holds bo b 4 ws

  pub finish-Sent :
      {c n t size : ℕ} {ws : List ℕ} {wr : IpcWriter}
      → Written c n t size ws wr
      → c < 2 ^ 16
      → n < 64
      → t < 64
      → 4 ≤ size
      → Returns (Sent c n t size ws) (finish bo wr)
  unfolding finish
  finish-Sent {ws} {wr} v hc hn ht room =
      rw
        (
          write-ok (record wr { pos = 0 })
              (header_word wr.command_id wr.normal_parameter_count wr.translate_parameter_size)
              (omega (arith, v.same_len)),
          v.same_command,
          v.normals,
          v.translates,
        )
        (returns (record {
          same_len = v.same_len;
          first = word_at_self bo wr.buf 0 _ (header_word-lt _ _ _ hc hn ht);
          holds = Holds-with_word bo wr.buf ws 4 0 _ (inr (omega arith)) v.holds;
        }))
