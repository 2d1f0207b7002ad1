-- ===== src/Modbus/Handler/Replies.antt =====
-- The handler answers every well-formed request as the register bank says.
use msap1_apu.Prelude.{
  ℕ, ◌+◌, ◌*◌, ◌/◌, ◌%◌, ◌^◌, ◌≤◌, ◌≡◌, ◌≢◌, ◌⊎◌, inl, inr, refl, ◌∙◌, Bool, true, false, not, ◌||◌,
  ◌&&◌, List, [], ◌∷◌, Option, none, some, ok, arith, bit_or, ltb, ◌==◌, if◌then◌else◌, length, All,
  ==_refl,
}
use msap1_apu.Modbus.Encoding.{IsWord, append_u16_be_lem}
use msap1_apu.Modbus.Handler.{
  server_device_failure, Request, Response, RegisterReadResult, RegisterBank, handle, handle_read,
  handle_write_single, handle_write_multiple, dispatch, reply, silence, unless_broadcast,
  append_all, is_success, exception, is_register_read, octet_at,
}
use msap1_apu.Modbus.Handler.Requests.{
  Command, read_registers, write_one, write_many, big_endian, encode_command, IsCommand,
  encode_answer, serve, done, HasWords, refused, registers, length-big_endian, word_read,
  append_all_lem, read_values_lem,
}

module _ (bank : RegisterBank) where
  open bank use {State, read, write_single, write_multiple}

  abbrev pub request_of : ℕ → Bool → Command → Request
  request_of unit allowed c = record {
    unit_id = unit;
    pdu = encode_command c;
    broadcast_allowed = allowed;
  }

  abbrev pub answered : State → ℕ → Command → Option Response × State
  answered s unit c = (
    some (record { unit_id = unit; pdu = encode_answer c (serve bank s c).0 }),
    (serve bank s c).1,
  )

  in_range : (n top : ℕ) → 1 ≤ n → n ≤ top → (n == 0 || ltb top n) ≡ false
  in_range n top lo hi = ground arith

  read_function :
      (f : ℕ) → (f ≡ 0x03) ⊎ (f ≡ 0x04) → (is_register_read f ≡ true) × (bit_or f 0x80 ≡ f + 128)
  unfolding is_register_read
  read_function f (inl e) = rw e (refl, refl)
  read_function f (inr e) = rw e (refl, refl)

  read_answer :
      (r : RegisterReadResult) (s : State) (unit : ℕ) (f a n : ℕ) (q : Request)
      → q.unit_id ≡ unit
      → bit_or f 0x80 ≡ f + 128
      → All IsWord r.values
      → n ≤ 125
      → ((if not (is_success r.exception)
          then reply bank s q (exception f r.exception)
          else if not (length r.values == n)
          then reply bank s q (exception f server_device_failure)
          else reply bank s q (append_all (f ∷ (length r.values * 2) % 2 ^ 8 ∷ []) r.values)))
        ≡ ok (
          some (record {
            unit_id = unit;
            pdu = encode_answer (read_registers f a n) (
                if not (is_success r.exception)
                then refused r.exception
                else if not (length r.values == n)
                then refused server_device_failure
                else registers r.values);
          }),
          s,
        )
  unfolding reply exception
  read_answer r s unit f a n q e h w b =
      ground (arith, append_all_lem r.values (f ∷ (length r.values * 2) % 2 ^ 8 ∷ []) w)

  handle_read_served :
      (s : State) (unit : ℕ) (b : Bool) (f a n : ℕ)
      → HasWords bank
      → IsCommand (read_registers f a n)
      → bit_or f 0x80 ≡ f + 128
      → handle_read bank s (request_of unit b (read_registers f a n)) f false
        ≡ ok (answered s unit (read_registers f a n))
  unfolding handle_read serve
  handle_read_served s unit b f a n words (hf, ha, lo, hi) h =
      let count = word_read n [] (omega arith) in
      let address = word_read a [] ha in
      rw (count, address, in_range n 125 lo hi)
        (read_answer (read s f a n) s unit f a n (request_of unit b (read_registers f a n)) refl h
          (words s f a n) hi)

  handle_write_single_served :
      (s : State) (unit : ℕ) (b : Bool) (a v : ℕ)
      → IsCommand (write_one a v)
      → handle_write_single bank s (request_of unit b (write_one a v)) 0x06 false
        ≡ ok (answered s unit (write_one a v))
  unfolding handle_write_single serve done unless_broadcast reply exception
  handle_write_single_served s unit b a v (ha, hv) =
      rw (word_read a [] ha, word_read v [] hv) (ground arith)

  long : (a : ℕ) (vs : List ℕ) → ltb (length (encode_command (write_many a vs))) 6 ≡ false
  long a vs = ground arith

  consistent :
      (a : ℕ) (vs : List ℕ)
      → 1 ≤ length vs
      → length vs ≤ 123
      → let n = length vs in
        (n == 0
          || ltb 123 n
          || not (n * 2 == n * 2)
          || not (length (encode_command (write_many a vs)) == 6 + n * 2))
        ≡ false
  consistent a vs lo hi = ground (arith, length-big_endian vs)

  handle_write_multiple_served :
      (s : State) (unit : ℕ) (b : Bool) (a : ℕ) (vs : List ℕ)
      → IsCommand (write_many a vs)
      → handle_write_multiple bank s (request_of unit b (write_many a vs)) 0x10 false
        ≡ ok (answered s unit (write_many a vs))
  unfolding handle_write_multiple serve done unless_broadcast reply exception octet_at
  handle_write_multiple_served s unit b a vs (ha, hvs, lo, hi) =
      let pdu = encode_command (write_many a vs) in
      let n = length vs in
      rw
        (
          long a vs,
          word_read n [] (omega arith),
          consistent a vs lo hi,
          read_values_lem vs 0 pdu refl hvs,
          word_read a [] ha,
        )
        (ground (
          arith,
          append_u16_be_lem (0x10 ∷ []) a ha,
          append_u16_be_lem (0x10 ∷ a / 256 ∷ a % 256 ∷ []) n (omega arith),
        ))

  -- A request to the configured unit reaches the code of its function.
  handle_addressed :
      (s : State) (unit : ℕ) (b : Bool) (f : ℕ) (rest : List ℕ)
      → 1 ≤ unit
      → unit ≤ 247
      → let q : Request = record { unit_id = unit; pdu = f ∷ rest; broadcast_allowed = b } in
        handle bank s q unit ≡ dispatch bank s q f false
  unfolding handle
  handle_addressed s unit b f rest lo hi =
      let set : (unit == 0 || ltb 247 unit) ≡ false = in_range unit 247 lo hi in
      let direct : (b && unit == 0) ≡ false = ground arith in rw (set, direct, ==_refl unit)

  dispatch_write_single :
      (s : State) (q : Request) (b : Bool)
      → dispatch bank s q 0x06 b ≡ handle_write_single bank s q 0x06 b
  unfolding dispatch is_register_read
  dispatch_write_single s q b = refl

  dispatch_write_multiple :
      (s : State) (q : Request) (b : Bool)
      → dispatch bank s q 0x10 b ≡ handle_write_multiple bank s q 0x10 b
  unfolding dispatch is_register_read
  dispatch_write_multiple s q b = refl

  abbrev encode_tail : ℕ → List ℕ → List ℕ
  encode_tail a vs =
      a / 256 ∷ a % 256 ∷ length vs / 256 ∷ length vs % 256 ∷ length vs * 2 ∷ big_endian vs

  -- A request in the form of the protocol, addressed to the configured unit, is answered with what
  -- the register bank says to the same command, and changes the bank as that command does.
  pub handle_served :
      (s : State) (unit : ℕ) (b : Bool) (c : Command)
      → HasWords bank
      → IsCommand c
      → 1 ≤ unit
      → unit ≤ 247
      → handle bank s (request_of unit b c) unit ≡ ok (answered s unit c)
  unfolding dispatch
  handle_served s unit b (read_registers f a n) words valid lo hi =
      let (reads, refusal) = read_function f valid.0 in
      handle_addressed s unit b f _ lo hi
      ∙ rw reads (handle_read_served s unit b f a n words valid refusal)
  handle_served s unit b (write_one a v) words valid lo hi =
      handle_addressed s unit b 0x06 (big_endian (a ∷ v ∷ [])) lo hi
      ∙ dispatch_write_single s _ false
      ∙ handle_write_single_served s unit b a v valid
  handle_served s unit b (write_many a vs) words valid lo hi =
      handle_addressed s unit b 0x10 (encode_tail a vs) lo hi
      ∙ dispatch_write_multiple s _ false
      ∙ handle_write_multiple_served s unit b a vs valid

  broadcast_addressed :
      (s : State) (unit f : ℕ) (rest : List ℕ)
      → 1 ≤ unit
      → unit ≤ 247
      → let q : Request = record { unit_id = 0; pdu = f ∷ rest; broadcast_allowed = true } in
        handle bank s q unit ≡ dispatch bank s q f true
  unfolding handle
  broadcast_addressed s unit f rest lo hi = rw (in_range unit 247 lo hi)

  -- A broadcast is never answered, but its writes are done.
  handle_broadcast :
      (s : State) (unit : ℕ) (c : Command)
      → IsCommand c
      → 1 ≤ unit
      → unit ≤ 247
      → handle bank s (request_of 0 true c) unit ≡ ok (none, (serve bank s c).1)
  unfolding dispatch handle_read serve silence
  handle_broadcast s unit (read_registers f a n) valid lo hi =
      broadcast_addressed s unit f _ lo hi ∙ rw ((read_function f valid.0).0)
  handle_broadcast s unit (write_one a v) (ha, hv) lo hi =
      broadcast_addressed s unit 0x06 _ lo hi
      ∙ dispatch_write_single s _ true
      ∙ unfold handle_write_single in rw (word_read a [] ha, word_read v [] hv)
  handle_broadcast s unit (write_many a vs) (ha, hvs, few, many) lo hi =
      let n = length vs in
      broadcast_addressed s unit 0x10 (encode_tail a vs) lo hi
      ∙ dispatch_write_multiple s _ true
      ∙ unfold handle_write_multiple octet_at in
        rw (
          long a vs,
          word_read n [] (omega arith),
          consistent a vs few many,
          read_values_lem vs 0 (encode_command (write_many a vs)) refl hvs,
          word_read a [] ha,
        )

  -- A request to another unit is neither answered nor carried out.
  pub handle_other_unit :
      (s : State) (q : Request) (unit : ℕ)
      → 1 ≤ unit
      → unit ≤ 247
      → q.pdu ≢ []
      → q.unit_id ≢ unit
      → (q.broadcast_allowed && q.unit_id == 0) ≡ false
      → handle bank s q unit ≡ ok (none, s)
  unfolding handle silence
  handle_other_unit s q unit lo hi full other direct = ground arith
