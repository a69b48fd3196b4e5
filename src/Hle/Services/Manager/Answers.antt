-- ===== src/Hle/Services/Manager/Answers.antt =====
-- hle/src/service/srv.rs and kernel/src/ipc.rs: the client reads the handle that the manager answers.
use pomelo.Prelude.{
  ℕ, ◌%◌, ◌/◌, ◌^◌, ◌≤◌, ◌<◌, ◌≡◌, refl, inr, true, false, some, [], ◌∷◌, ok, Returns, returns,
  arith,
}
use pomelo.Prelude.Buffer.{Buffer, ByteOrder, word_at, with_word, word_at_self}
use pomelo.Ipc.Header.{header_from, header_word, header_word-lt, header_from-header_word}
use pomelo.Ipc.Param.{as_slice, descriptor, descriptor-sum, encode, raw}
use pomelo.Hle.Svc.{done}
use pomelo.Ipc.Words.{Word, Holds, Holds-with_word, Holds-snoc, get_word-ok, put_word-ok}
use pomelo.Ipc.Written.{IsHandle}
use pomelo.Ipc.Read.{received, read_translate-encode}
use pomelo.Ipc.Reader.{open_response}
use pomelo.Ipc.Writer.{response_to, write, write_handles, write_translate, finish}
use pomelo.Ipc.Request.{request}
use pomelo.Hle.Services.Manager.{response, answer_handle, handle_in, read_response}

module _ (bo : ByteOrder) where
  read_response-ok :
      (e : Buffer) (command h : ℕ)
      → command < 2 ^ 16
      → 4 ≤ e.len
      → word_at bo e 0 ≡ header_word command 0 2
      → IsHandle (some h)
      → Holds bo e 4 (0 ∷ encode true false (some h ∷ []))
      → read_response bo e ≡ ok (done h)
  unfolding read_response open_response handle_in received encode raw
  read_response-ok e command h bits room first v holds =
      rw
        (
          get_word-ok bo e 0 room,
          first,
          header_from-header_word command 0 2 bits (omega arith) (omega arith),
          get_word-ok bo e 4 holds.0,
          holds.1,
        )
        (rw
          (read_translate-encode bo true false (some h ∷ [])
            (record {
              header = record {
                command_id = command;
                normal_parameter_count = 0;
                translate_parameter_size = 2;
              };
              result = 0;
              buf = e;
              pos = 8;
              normal_parameter_count = 0;
              translate_parameter_words = 2;
            })
            refl (omega arith) (omega arith) (omega arith) (v, tt) holds.2)
          refl)

  -- The answer with a handle is read as a success with this handle.
  pub answer_handle-Returns :
      (d : Buffer) (h : ℕ)
      → 16 ≤ d.len
      → 0 < h
      → h < 2 ^ 32
      → Returns (λ e. read_response bo e ≡ ok (done h)) (answer_handle bo d h)
  unfolding answer_handle response request response_to write write_translate write_handles finish
      as_slice raw header_from encode
  answer_handle-Returns d h room some_handle small =
      let command = word_at bo d 0 / 2 ^ 16 % 2 ^ 16 in
      let bits : command < 2 ^ 16 = omega arith in
      let one : Word (descriptor true false 1) =
        rw (descriptor-sum true false 0 (omega arith)) (omega arith) in
      let b1 = with_word bo d 0 0 in
      let b2 = with_word bo b1 4 0 in
      let b3 = with_word bo b2 8 (descriptor true false 1) in
      let b4 = with_word bo b3 12 h in
      let e = with_word bo b4 0 (header_word command 0 2) in
      let words : Holds bo b4 4 (0 ∷ descriptor true false 1 ∷ h ∷ []) =
        Holds-snoc bo b3 (0 ∷ descriptor true false 1 ∷ []) 4 12 h refl (omega arith) small (
          Holds-snoc bo b2 (0 ∷ []) 4 8 (descriptor true false 1) refl (omega arith) one
            (Holds-snoc bo b1 [] 4 4 0 refl (omega arith) (omega arith) tt)) in
      rw
        (
          get_word-ok bo d 0 (omega arith),
          put_word-ok bo d 0 0 (omega arith),
          put_word-ok bo b1 4 0 (omega arith),
          put_word-ok bo b2 8 (descriptor true false 1) (omega arith),
          put_word-ok bo b3 12 h (omega arith),
          put_word-ok bo b4 0 (header_word command 0 2) (omega arith),
        )
        (returns (
          read_response-ok e command h bits (omega arith)
            (word_at_self bo b4 0 (header_word command 0 2)
              (header_word-lt command 0 2 bits (omega arith) (omega arith)))
            (some_handle, small)
            (Holds-with_word bo b4 (0 ∷ descriptor true false 1 ∷ h ∷ []) 4 0
              (header_word command 0 2) (inr (omega arith)) words)))
