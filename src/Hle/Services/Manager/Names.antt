-- ===== src/Hle/Services/Manager/Names.antt =====
-- hle/src/service/srv.rs: the name of a service goes from `SrvInterface` to the manager as two words.
use pomelo.Prelude.{
  ℕ, zero, suc, ◌%◌, ◌^◌, ◌≤◌, ◌<◌, ◌≡◌, refl, sym, ◌∙◌, Bool, some, List, [], ◌∷◌, ◌++◌, length,
  take, drop, All, Run, ok, ◌>>=◌, Returns, Returns-mono, if◌then◌else◌, arith, leb_of_le, expect,
}
use mathlib.Core.Path.{subst, ap₂}
use pomelo.Prelude.Buffer.{Buffer, ByteOrder, slice}
use pomelo.Kernel.Ports.{short_name}
use pomelo.Kernel.Ports.Padded.{byte_at, padded-slice}
use pomelo.Ipc.Header.{header_from-header_word}
use pomelo.Ipc.Words.{get_word-ok}
use pomelo.Ipc.Written.{Sent}
use pomelo.Ipc.Message.{Fits}
use pomelo.Ipc.RoundTrip.{write_message-Sent}
use pomelo.Ipc.Request.{request, request_normal}
use pomelo.Hle.Services.Manager.{
  SrvCommand, srv_commands, command_of, read_name, name_words, register_request, get_request,
}

byte_at-lt : (name : List ℕ) (i : ℕ) → All (λ b. b < 256) name → byte_at name i < 256
byte_at-lt [] i h = omega arith
byte_at-lt (b ∷ bs) zero h = h.0
byte_at-lt (b ∷ bs) (suc i) h = byte_at-lt bs i h.1

module _ (bo : ByteOrder) where
  -- A word of four bytes is 32 bits, and is written as them.
  pub record BytesAreWords : Type 0 where
    pub writes :
        (a b c d : ℕ)
        → All (λ b. b < 256) (a ∷ b ∷ c ∷ d ∷ [])
        → bo.write_u32 (bo.read_u32 (a ∷ b ∷ c ∷ d ∷ [])) ≡ a ∷ b ∷ c ∷ d ∷ []
    pub bound :
        (a b c d : ℕ)
        → All (λ b. b < 256) (a ∷ b ∷ c ∷ d ∷ [])
        → bo.read_u32 (a ∷ b ∷ c ∷ d ∷ []) < 2 ^ 32

  -- The two words of a name.
  abbrev pub first_word : List ℕ → ℕ
  first_word name = bo.read_u32 (take 4 (short_name name))

  abbrev pub second_word : List ℕ → ℕ
  second_word name = bo.read_u32 (take 4 (drop 4 (short_name name)))

  abbrev pub asked : Buffer → Run SrvCommand
  asked d = request bo d >>= λ r. expect (command_of srv_commands r.header)

  -- A request of the manager with a name, its length and one more word.
  pub record Asks (command : SrvCommand) (name : List ℕ) (x size : ℕ) (d : Buffer) : Type 0 where
    pub the_command : asked d ≡ ok command
    pub the_name : read_name bo d ≡ ok (short_name name, length name, x)
    pub the_size : d.len ≡ size

  module _ (words : BytesAreWords) where
    both_words :
        (name : List ℕ)
        → All (λ b. b < 256) name
        → (bo.write_u32 (first_word name) ++ bo.write_u32 (second_word name) ≡ short_name name)
          × (first_word name < 2 ^ 32)
          × (second_word name < 2 ^ 32)
    unfolding slice
    both_words name small =
        let lt : (i : ℕ) → byte_at name i < 256 = λ i. byte_at-lt name i small in
        let low : All (λ b. b < 256)
            (byte_at name 0 ∷ byte_at name 1 ∷ byte_at name 2 ∷ byte_at name 3 ∷ []) =
          (lt 0, (lt 1, (lt 2, (lt 3, tt)))) in
        let high : All (λ b. b < 256)
            (byte_at name 4 ∷ byte_at name 5 ∷ byte_at name 6 ∷ byte_at name 7 ∷ []) =
          (lt 4, (lt 5, (lt 6, (lt 7, tt)))) in
        let e = padded-slice 8 name in
        subst
          (λ l.
            (bo.write_u32 (bo.read_u32 (take 4 l)) ++ bo.write_u32 (bo.read_u32 (take 4 (drop 4 l)))
              ≡ l)
            × (bo.read_u32 (take 4 l) < 2 ^ 32)
            × (bo.read_u32 (take 4 (drop 4 l)) < 2 ^ 32))
          (sym e)
          (
            ap₂ ◌++◌ (words.writes _ _ _ _ low) (words.writes _ _ _ _ high),
            words.bound _ _ _ _ low,
            words.bound _ _ _ _ high,
          )

    -- What the manager reads of a request in which four normal parameters were sent.
    read_name-Sent :
        (command a b l x size : ℕ) (d : Buffer)
        → command < 2 ^ 16
        → Sent bo command 4 0 size (a ∷ b ∷ l ∷ x ∷ []) d
        → read_name bo d ≡ ok (bo.write_u32 a ++ bo.write_u32 b, l, x)
    unfolding read_name request request_normal
    read_name-Sent command a b l x size d bits sent =
        let h = sent.holds in
        rw
          (
            get_word-ok bo d 0 (omega (arith, h.0)),
            sent.first,
            header_from-header_word command 4 0 bits (omega arith) (omega arith),
            get_word-ok bo d 4 h.0,
            h.1,
            get_word-ok bo d 8 h.2.0,
            h.2.1,
            get_word-ok bo d 12 h.2.2.0,
            h.2.2.1,
            get_word-ok bo d 16 h.2.2.2.0,
            h.2.2.2.1,
          )
          refl

    Sent-Asks :
        (id : ℕ) (command : SrvCommand) (name : List ℕ) (x size : ℕ) (d : Buffer)
        → id < 2 ^ 16
        → command_of srv_commands
            (record { command_id = id; normal_parameter_count = 4; translate_parameter_size = 0 })
          ≡ some command
        → All (λ b. b < 256) name
        → length name ≤ 8
        → Sent bo id 4 0 size (first_word name ∷ second_word name ∷ length name % 2 ^ 32 ∷ x ∷ []) d
        → Asks command name x size d
    unfolding request
    Sent-Asks id command name x size d bits known small short sent =
        let small_length : length name % 2 ^ 32 ≡ length name = omega arith in
        let written =
          read_name-Sent id (first_word name) (second_word name) (length name % 2 ^ 32) x size d
            bits sent in
        record {
          the_command =
              rw
                (
                  get_word-ok bo d 0 (omega (arith, sent.holds.0)),
                  sent.first,
                  header_from-header_word id 4 0 bits (omega arith) (omega arith),
                  known,
                )
                refl;
          the_name = written ∙ rw ((both_words name small).0, small_length) refl;
          the_size = sent.same_len;
        }

    -- For a byte order in which four bytes are a word of 32 bits and are written back as they were: the
    -- requests that the interface makes for a name of at most eight bytes in a buffer of at least 20 bytes are
    -- written without a panic; the manager takes them for a registration and for a lookup, and reads the name,
    -- padded with 0 to eight bytes, its length and the last parameter.
    pub requests-Asks :
        (name : List ℕ) (max_sessions : ℕ) (no_wait : Bool) (b : Buffer)
        → All (λ c. c < 256) name
        → length name ≤ 8
        → max_sessions < 2 ^ 32
        → 20 ≤ b.len
        → Returns
            (Asks SrvCommand.register_service_port name max_sessions b.len)
            (register_request bo name max_sessions b)
          × Returns
              (Asks SrvCommand.get_service_handle name (if no_wait then 1 else 0) b.len)
              (get_request bo name no_wait b)
    unfolding register_request get_request name_words command_of
    requests-Asks name max_sessions no_wait b small short few room =
        let two = both_words name small in
        let fits : (id x : ℕ)
            → id < 65536
            → x < 2 ^ 32
            → Fits id (first_word name ∷ second_word name ∷ length name % 2 ^ 32 ∷ x ∷ []) []
                b.len =
          λ id x hid hx. record {
            command_bits = hid;
            few_normals = omega arith;
            few_translates = omega arith;
            room = omega arith;
            are_words = (two.1, (two.2, (omega arith, (hx, tt))));
            are_params = tt;
          } in
        let flag : (if no_wait then 1 else 0) < 2 ^ 32 = ground arith in
        (
          rw (leb_of_le (length name) 8 short) (
              Returns-mono (write_message-Sent bo 3 _ [] b (fits 3 max_sessions (omega arith) few))
                (λ d sent.
                  Sent-Asks 3 SrvCommand.register_service_port name max_sessions b.len d
                    (omega arith) refl small short sent)),
          rw (leb_of_le (length name) 8 short) (
              Returns-mono
                (write_message-Sent bo 5 _ [] b
                  (fits 5 (if no_wait then 1 else 0) (omega arith) flag))
                (λ d sent.
                  Sent-Asks 5 SrvCommand.get_service_handle name (if no_wait then 1 else 0) b.len d
                    (omega arith) refl small short sent)),
        )
