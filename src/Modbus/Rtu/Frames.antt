-- ===== src/Modbus/Rtu/Frames.antt =====
-- A stream of requests: the assembler finds each one, and `process_frame` answers it.
use msap1_apu.Prelude.{
  ℕ, suc, ◌+◌, ◌-◌, ◌/◌, ◌%◌, ◌≤◌, ◌≡◌, refl, sym, ap, ◌∙◌, List, [], ◌∷◌, ◌++◌, map, some, inl,
  inr, true, false, arith, length, take, drop, get_or, get_or-append_after, All, append_assoc,
  append-nil, length-append, ==_refl, ltb, take-append_exact, drop-append_exact,
}
use msap1_apu.Prelude.Bits.{bit_and_mask}
use msap1_apu.Modbus.Handler.{RegisterBank}
use msap1_apu.Modbus.Handler.Requests.{
  Command, read_registers, write_one, write_many, encode_command, encode_answer, IsCommand,
  HasWords, serve, big_endian, length-big_endian,
}
use msap1_apu.Modbus.Handler.Replies.{handle_served}
use msap1_apu.Modbus.Rtu.{
  ready, frame_size, push_loop, push, Crc, crc16, valid_crc, append_crc, process_frame, output,
  maximum_rtu_frame_size,
}
use msap1_apu.Modbus.Rtu.Assembly.{prepend, push-append, push_loop-takes}

-- All the bytes of a list of frames.
abbrev pub concat : List (List ℕ) → List ℕ
concat [] = []
concat (f ∷ fs) = f ++ concat fs

abbrev IsFrame : List ℕ → Type 0
IsFrame f = (frame_size f ≡ some (length f)) × (length f ≤ maximum_rtu_frame_size)

take-whole : (f : List ℕ) → take (length f) f ≡ f
take-whole f = ap (take (length f)) (sym (append-nil f)) ∙ take-append_exact (length f) f [] refl

drop-whole : (f : List ℕ) → drop (length f) f ≡ []
drop-whole f = ap (drop (length f)) (sym (append-nil f)) ∙ drop-append_exact (length f) f [] refl

push_one : (f : List ℕ) → IsFrame f → push [] f ≡ ready (f ∷ []) []
unfolding push push_loop frame_size
push_one [] (e, h) = absurd (cc e)
push_one (x ∷ f) (e, h) =
    push_loop-takes (suc (length f)) (x ∷ f) [] (suc (length f)) e h (omega arith)
    ∙ rw (take-whole f, drop-whole f) refl

-- Whole frames, in one read, are found one by one.
push_frames : (fs : List (List ℕ)) → All IsFrame fs → push [] (concat fs) ≡ ready fs []
push_frames [] h = unfold push push_loop frame_size in refl
push_frames (f ∷ fs) h =
    push-append [] f (concat fs) (f ∷ []) [] (push_one f h.0)
    ∙ ap (prepend (f ∷ [])) (push_frames fs h.1)

module _ (crc : Crc) where
  -- A request as it stands on the wire: the unit, the PDU, and the checksum, low byte first.
  abbrev pub framed : ℕ → Command → List ℕ
  framed unit c =
      let body = unit ∷ encode_command c in
      body ++ (crc16 crc body % 256 ∷ crc16 crc body / 256 ∷ [])

  framed-IsFrame : (unit : ℕ) (c : Command) → IsCommand c → IsFrame (framed unit c)
  unfolding frame_size
  framed-IsFrame unit (read_registers f a n) (inl e, _, _, _) = rw e (refl, omega arith)
  framed-IsFrame unit (read_registers f a n) (inr e, _, _, _) = rw e (refl, omega arith)
  framed-IsFrame unit (write_one a v) h = (refl, omega arith)
  framed-IsFrame unit (write_many a vs) (_, _, few, many) =
      let body = unit ∷ encode_command (write_many a vs) in
      let tail = crc16 crc body % 256 ∷ crc16 crc body / 256 ∷ [] in
      let size = length-append (big_endian vs) tail in
      let bytes = length-big_endian vs in (ground (arith, size, bytes), omega (arith, size, bytes))

  abbrev signed : List ℕ → List ℕ
  signed body = body ++ (crc16 crc body % 256 ∷ crc16 crc body / 256 ∷ [])

  signed-valid_crc : (body : List ℕ) → 2 ≤ length body → valid_crc crc (signed body) ≡ true
  unfolding valid_crc
  signed-valid_crc body h =
      let lo = crc16 crc body % 256 in
      let hi = crc16 crc body / 256 in
      let tail = lo ∷ hi ∷ [] in
      let size : length (signed body) ≡ length body + 2 = length-append body tail in
      let long : ltb (length (signed body)) 4 ≡ false = ground arith in
      let cut : take (length (signed body) - 2) (signed body) ≡ body =
        ap (λ n. take n (signed body)) (omega arith)
        ∙ take-append_exact (length body) body tail refl in
      let low : get_or (signed body) (length (signed body) - 2) 0 ≡ lo =
        ap (λ n. get_or (signed body) n 0) (omega arith) ∙ get_or-append_after body tail 0 0 in
      let high : get_or (signed body) (length (signed body) - 1) 0 ≡ hi =
        ap (λ n. get_or (signed body) n 0) (omega arith) ∙ get_or-append_after body tail 1 0 in
      rw (long, cut, low, high, bit_and_mask 8 (crc16 crc body), ==_refl lo, ==_refl hi) refl

  -- A stream of requests in the form of the protocol, with their checksums, is split into exactly
  -- these frames, and nothing is left in the buffer.
  pub push_requests :
      (unit : ℕ) (cs : List Command)
      → All IsCommand cs
      → push [] (concat (map (framed unit) cs)) ≡ ready (map (framed unit) cs) []
  push_requests unit cs h = push_frames (map (framed unit) cs) (each cs h)
    where
      each : (cs : List Command) → All IsCommand cs → All IsFrame (map (framed unit) cs)
      each [] h = h
      each (c ∷ cs) (hc, h) = (framed-IsFrame unit c hc, each cs h)

  -- Such a frame, addressed to the configured unit, is answered by a frame of the same form that
  -- holds what the register bank says to the request, and changes the bank as the request does.
  pub process_served :
      (bank : RegisterBank) (unit : ℕ) (s : bank.State) (c : Command)
      → HasWords bank
      → IsCommand c
      → 1 ≤ unit
      → unit ≤ 247
      → let (answer, s') = serve bank s c in
        let body = unit ∷ encode_answer c answer in
        process_frame crc bank unit s (framed unit c)
        ≡ output (body ++ (crc16 crc body % 256 ∷ crc16 crc body / 256 ∷ [])) s'
  unfolding process_frame append_crc
  process_served bank unit s c words valid lo hi =
      let pdu = encode_command c in
      let tail = crc16 crc (unit ∷ pdu) % 256 ∷ crc16 crc (unit ∷ pdu) / 256 ∷ [] in
      let size : length (pdu ++ tail) ≡ length pdu + 2 = length-append pdu tail in
      let cut : take (length (framed unit c) - 3) (pdu ++ tail) ≡ pdu =
        ap (λ n. take n (pdu ++ tail)) (omega arith)
        ∙ take-append_exact (length pdu) pdu tail refl in
      let answer = encode_answer c (serve bank s c).0 in
      rw
        (
          signed-valid_crc (unit ∷ pdu) (nonempty c),
          cut,
          handle_served bank s unit true c words valid lo hi,
          append_assoc answer,
          bit_and_mask 8 (crc16 crc (unit ∷ answer)),
        )
        refl
    where
      nonempty : (c : Command) → 2 ≤ length (unit ∷ encode_command c)
      nonempty (read_registers f a n) = omega arith
      nonempty (write_one a v) = omega arith
      nonempty (write_many a vs) = omega arith
