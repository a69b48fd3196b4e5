-- ===== src/Ipc/RoundTrip.antt =====
-- kernel/src/ipc.rs: a reader gives back the message that a writer has put into the buffer.
use pomelo.Prelude.{
  ℕ, zero, suc, ◌+◌, ◌-◌, ◌*◌, ◌^◌, ◌≤◌, ◌<◌, ◌≡◌, refl, sym, ap, ◌∙◌, Bool, true, false, Option,
  none, some, List, [], ◌∷◌, ◌++◌, map, length, Run, ok, Returns, returns, Returns-bind,
  Returns-mono, ◌>>=◌, arith, All, length-append, append_assoc, append-nil,
}
use pomelo.Prelude.Buffer.{Buffer, ByteOrder}
use pomelo.Ipc.Header.{IpcHeaderCode, header_from-header_word}
use pomelo.Ipc.Param.{as_slice, raw, encode}
use pomelo.Ipc.Words.{Word, Holds, Holds-right, get_word-ok}
use pomelo.Ipc.Written.{
  Written, Sent, new_request-Written, write_normal-Written, write_translate-Written, finish-Sent,
}
use pomelo.Ipc.Read.{read_normal-ok, read_translate-encode, step}
use pomelo.Ipc.Writer.{IpcWriter}
use pomelo.Ipc.Reader.{IpcReader, open_request, has_more_translate_params}
use pomelo.Ipc.Message.{
  HandleParam, words, all_words, as_received, write_normals, write_params, write_message,
  read_normals, read_params, read_message, Fits, IsParam,
}

length-map {ℓ κ} :
    {A : Type ℓ} {B : Type κ} (f : A → B) (xs : List A) → length (map f xs) ≡ length xs
length-map f [] = refl
length-map f (x ∷ xs) = ap suc (length-map f xs)

length-words : (p : HandleParam) → length (words p) ≡ suc (length (as_slice p.handles))
unfolding encode
length-words p = ap suc (length-map raw (as_slice p.handles))

module _ (bo : ByteOrder) where
  write_normals-Written :
      {c size : ℕ} (n : ℕ) (ws : List ℕ) {wr : IpcWriter} (us : List ℕ) (n' : ℕ) (all : List ℕ)
      → Written bo c n 0 size ws wr
      → n' ≡ n + length us
      → n' < 64
      → all ≡ ws ++ us
      → 4 + 4 * length ws + 4 * length us ≤ size
      → All Word us
      → Returns (Written bo c n' 0 size all) (write_normals bo wr us)
  unfolding write_normals
  write_normals-Written n ws [] n' all v e few a room small =
      let same : n' ≡ n = omega arith in rw (same, a, append-nil) (returns v)
  write_normals-Written n ws (u ∷ us) n' all v e few a room small =
      Returns-bind (write_normal-Written bo u v (omega arith) (omega arith) small.0) λ wr' v'.
        write_normals-Written (suc n) (ws ++ u ∷ []) us n' all v' (omega arith) few
          (a ∙ sym (append_assoc ws (u ∷ []) us)) (omega (arith, length-append ws (u ∷ []))) small.1

  write_params-Written :
      {c n size : ℕ} (t : ℕ) (ws : List ℕ) {wr : IpcWriter} (ps : List HandleParam) (t' : ℕ)
      (all : List ℕ)
      → Written bo c n t size ws wr
      → t' ≡ t + length (all_words ps)
      → t' < 64
      → all ≡ ws ++ all_words ps
      → 4 + 4 * length ws + 4 * length (all_words ps) ≤ size
      → All IsParam ps
      → Returns (Written bo c n t' size all) (write_params bo wr ps)
  unfolding write_params
  write_params-Written t ws [] t' all v e few a room small =
      let same : t' ≡ t = omega arith in rw (same, a, append-nil) (returns v)
  write_params-Written t ws (p ∷ ps) t' all v e few a room good =
      let size = length-append (words p) (all_words ps) in
      let one = length-words p in
      Returns-bind
        (write_translate-Written bo t ws p.moved p.calling_process p.handles (t + length (words p))
          v (omega (arith, one)) (omega (arith, size)) (omega (arith, size, one)) good.0.0 good.0.2)
        λ wr' v'.
          write_params-Written (t + length (words p)) (ws ++ words p) ps t' all v'
            (omega (arith, size)) few (a ∙ sym (append_assoc ws (words p) (all_words ps)))
            (omega (arith, size, length-append ws (words p))) good.1

  -- The writing half: what a message leaves in the buffer.
  pub write_message-Sent :
      (command : ℕ) (normals : List ℕ) (params : List HandleParam) (b : Buffer)
      → Fits command normals params b.len
      → Returns
          (Sent bo command
            (length normals)
            (length (all_words params))
            b.len
            (normals ++ all_words params))
          (write_message bo command normals params b)
  unfolding write_message
  write_message-Sent command normals params b fits =
      Returns-bind (new_request-Written bo command b (omega (arith, fits.room))) λ wr v.
        Returns-bind
          (write_normals-Written 0 [] normals (length normals) normals v (omega arith)
            fits.few_normals refl (omega (arith, fits.room)) fits.are_words)
          λ wr' v'.
            Returns-bind
              (write_params-Written 0 normals params (length (all_words params))
                (normals ++ all_words params) v' (omega arith) fits.few_translates refl
                (omega (arith, fits.room)) fits.are_params)
              λ wr'' v''.
                finish-Sent bo v'' fits.command_bits fits.few_normals fits.few_translates
                  (omega (arith, fits.room))

  read_normals-Holds :
      (us ws : List ℕ) (r : IpcReader)
      → length us ≤ r.normal_parameter_count
      → Holds bo r.buf r.pos (us ++ ws)
      → read_normals bo (length us) r
        ≡ ok (
          us,
          record r {
            normal_parameter_count = r.normal_parameter_count - length us;
            pos = r.pos + 4 * length us;
          },
        )
  unfolding read_normals
  read_normals-Holds [] ws r few h = ground arith
  read_normals-Holds (u ∷ us) ws r few h =
      rw
        (
          read_normal-ok bo r u (us ++ ws) (omega arith) h,
          read_normals-Holds us ws
              (record r { normal_parameter_count = r.normal_parameter_count - 1; pos = r.pos + 4 })
              (omega arith) h.2,
        )
        (ground arith)

  Holds-left :
      (b : Buffer) (xs ys : List ℕ) (pos : ℕ) → Holds bo b pos (xs ++ ys) → Holds bo b pos xs
  Holds-left b [] ys pos h = tt
  Holds-left b (x ∷ xs) ys pos h = (h.0, h.1, Holds-left b xs ys (pos + 4) h.2)

  read_params-Holds :
      (fuel : ℕ) (ps : List HandleParam) (r : IpcReader)
      → r.translate_parameter_words ≡ length (all_words ps)
      → r.translate_parameter_words ≤ fuel
      → r.normal_parameter_count ≡ 0
      → All IsParam ps
      → Holds bo r.buf r.pos (all_words ps)
      → read_params bo fuel r ≡ ok (map as_received ps)
  unfolding read_params has_more_translate_params
  read_params-Holds zero [] r e enough none_left good h = ground arith
  read_params-Holds (suc fuel) [] r e enough none_left good h = ground arith
  read_params-Holds zero (p ∷ ps) r e enough none_left good h =
      absurd (omega (arith, length-append (words p) (all_words ps), length-words p))
  read_params-Holds (suc fuel) (p ∷ ps) r e enough none_left good h =
      let size = length-append (words p) (all_words ps) in
      let one = length-words p in
      let hs = as_slice p.handles in
      let more : pomelo.Prelude.ltb 0 r.translate_parameter_words ≡ true =
        pomelo.Prelude.lt→ltb _ _ (omega (arith, size, one)) in
      let left : r.translate_parameter_words - suc (length hs) ≡ length (all_words ps) =
        omega (arith, size, one) in
      rw
        (
          more,
          read_params,
          read_translate-encode bo p.moved p.calling_process hs r none_left good.0.0 good.0.1
              (omega (arith, size, one)) good.0.2
              (Holds-left r.buf (words p) (all_words ps) r.pos h),
        )
        (rw
          (read_params-Holds fuel ps (step r (suc (length hs))) left (omega (arith, size, one))
            none_left good.1
            (Holds-right bo r.buf (words p) (all_words ps) r.pos (r.pos + 4 * suc (length hs))
              (omega (arith, one)) h))
          refl)

  -- The reading half.
  pub read_message-Sent :
      (command : ℕ) (normals : List ℕ) (params : List HandleParam) (b d : Buffer)
      → Fits command normals params b.len
      → Sent bo command
          (length normals)
          (length (all_words params))
          b.len
          (normals ++ all_words params)
          d
      → read_message bo d
        ≡ ok (
          record {
            command_id = command;
            normal_parameter_count = length normals;
            translate_parameter_size = length (all_words params);
          },
          normals,
          map as_received params,
        )
  unfolding read_message open_request
  read_message-Sent command normals params b d fits sent =
      let n = length normals in
      let t = length (all_words params) in
      let header : IpcHeaderCode = record {
        command_id = command;
        normal_parameter_count = n;
        translate_parameter_size = t;
      } in
      let r : IpcReader = record {
        header = header;
        result = 0;
        buf = d;
        pos = 4;
        normal_parameter_count = n;
        translate_parameter_words = t;
      } in
      let r' : IpcReader = record r { normal_parameter_count = n - n; pos = 4 + 4 * n } in
      rw
        (
          get_word-ok bo d 0 (omega (arith, sent.same_len, fits.room)),
          sent.first,
          header_from-header_word command n t fits.command_bits fits.few_normals
              fits.few_translates,
        )
        (rw (read_normals-Holds normals (all_words params) r (omega arith) sent.holds) (
          rw
            (read_params-Holds t params r' refl (omega arith) (omega arith) fits.are_params
              (Holds-right bo d normals (all_words params) 4 (4 + 4 * n) refl sent.holds))
            refl))

  -- For every byte order of the crate: a message whose counts fit in the header and whose words fit in
  -- the buffer is written without a panic, and reading the buffer gives the command, the counts, the
  -- normal parameters and the handle parameters, each handle replaced by the calling process's where the
  -- parameter asks for it.
  pub read_message-write_message :
      (command : ℕ) (normals : List ℕ) (params : List HandleParam) (b : Buffer)
      → Fits command normals params b.len
      → Returns
          (λ d.
            read_message bo d
            ≡ ok (
              record {
                command_id = command;
                normal_parameter_count = length normals;
                translate_parameter_size = length (all_words params);
              },
              normals,
              map as_received params,
            ))
          (write_message bo command normals params b)
  read_message-write_message command normals params b fits =
      Returns-mono (write_message-Sent command normals params b fits)
        λ d sent. read_message-Sent command normals params b d fits sent
