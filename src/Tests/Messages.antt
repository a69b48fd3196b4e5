-- ===== src/Tests/Messages.antt =====
-- A registration request of kernel/src/ipc.rs in a buffer of 256 bytes.
use pomelo.Prelude.{
  ℕ, ◌+◌, ◌*◌, ◌≡◌, refl, true, false, some, List, [], ◌∷◌, arith, Returns, map, length, ok,
}
use pomelo.Prelude.Buffer.{Buffer, little_endian, with_word, word_at, slice, splice}
use pomelo.Ipc.Param.{single, encode, as_slice, TranslateParameter}
use pomelo.Ipc.Message.{HandleParam, Fits, read_message, write_message, all_words, as_received}
use pomelo.Ipc.Reader.{IpcReader, read_translate}
use pomelo.Ipc.Request.{
  IpcRequest, request_translate, to_reader, Differs, request_translate-Differs,
}
use pomelo.Ipc.RoundTrip.{read_message-write_message}

abbrev zeros : Buffer
zeros = record { len = 256; at = λ i. 0 }

abbrev normals : List ℕ
normals = 1702129267 ∷ 3 ∷ []

abbrev params : List HandleParam
params = record { moved = true; calling_process = false; handles = single (some 7) } ∷ []

fits : Fits 3 normals params 256
unfolding encode as_slice
fits = record {
  command_bits = omega arith;
  few_normals = omega arith;
  few_translates = omega arith;
  room = omega arith;
  are_words = (omega arith, (omega arith, tt));
  are_params = ((omega arith, omega arith, ((omega arith, omega arith), tt)), tt);
}

read_message-write_message_example :
    Returns
      (λ d.
        read_message little_endian d
        ≡ ok (
          record {
            command_id = 3;
            normal_parameter_count = length normals;
            translate_parameter_size = length (all_words params);
          },
          normals,
          map as_received params,
        ))
      (write_message little_endian 3 normals params zeros)
read_message-write_message_example =
    read_message-write_message little_endian 3 normals params zeros fits

-- A mapping with the permission bits of a buffer that is read and written.
abbrev mapping : IpcRequest
mapping = record {
  header = record { command_id = 3; normal_parameter_count = 0; translate_parameter_size = 2 };
  buf = with_word little_endian (with_word little_endian zeros 0 (6 + 64 * 16)) 4 4096;
  pos = 0;
  normal_parameter_count = 0;
  translate_parameter_words = 2;
}

request_translate-Differs_example :
    (p : TranslateParameter × IpcRequest) × (q : TranslateParameter × IpcReader)
    × (request_translate little_endian mapping ≡ ok p)
    × (read_translate little_endian (to_reader mapping) ≡ ok q)
    × Differs mapping p q
unfolding slice splice
request_translate-Differs_example =
    request_translate-Differs little_endian mapping refl (omega arith) (omega arith)
      (let e : word_at little_endian mapping.buf 0 ≡ 1030 = refl in omega (arith, e))
      (let e : word_at little_endian mapping.buf 0 ≡ 1030 = refl in omega (arith, e))
