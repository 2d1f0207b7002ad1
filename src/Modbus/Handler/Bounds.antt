-- ===== src/Modbus/Handler/Bounds.antt =====
-- The handler on any PDU, well formed or not.
use msap1_apu.Prelude.{
  ℕ, zero, suc, ◌+◌, ◌*◌, ◌%◌, ◌^◌, ◌≤◌, ◌≡◌, inl, inr, refl, Bool, true, false, not, ◌||◌, ◌&&◌,
  List, [], ◌∷◌, Option, none, some, Result, ok, err, arith, bit_or, ltb, ◌==◌, if◌then◌else◌,
  length, take, drop, Bool-cases, length-append, length-drop,
}
use msap1_apu.Modbus.Encoding.{Error, read_u16_be, append_u16_be}
use msap1_apu.Modbus.Handler.{
  ExceptionCode, illegal_data_value, illegal_function, Request, Response, RegisterBank, handle,
  handle_read, handle_write_single, handle_write_multiple, dispatch, reply, silence,
  unless_broadcast, u16_at, read_values, append_all, is_success, exception, octet_at,
  is_register_read,
}

two_bytes : (bs : List ℕ) → 2 ≤ length bs → (w : ℕ) × (read_u16_be (take 2 bs) ≡ ok w)
unfolding read_u16_be
two_bytes [] h = absurd (omega arith)
two_bytes (b ∷ []) h = absurd (omega arith)
two_bytes (b ∷ c ∷ bs) h = (bit_or (b * 2 ^ 8) c % 2 ^ 16, refl)

u16_at_ok : (pdu : List ℕ) (at : ℕ) → at + 2 ≤ length pdu → (w : ℕ) × (u16_at pdu at ≡ ok w)
u16_at_ok pdu at h = two_bytes (drop at pdu) (omega (arith, length-drop at pdu))

read_values_ok :
    (rounds index : ℕ) (pdu : List ℕ)
    → 6 + index * 2 + rounds * 2 ≤ length pdu
    → (ws : List ℕ) × (read_values rounds index pdu ≡ ok ws)
unfolding read_values
read_values_ok zero index pdu h = ([], refl)
read_values_ok (suc rounds) index pdu h =
    let (w, e) = u16_at_ok pdu (6 + index * 2) (omega arith) in
    let (ws, es) = read_values_ok rounds (index + 1) pdu (omega arith) in (w ∷ ws, rw (e, es))

length-append_u16_be : (bytes : List ℕ) (w : ℕ) → length (append_u16_be bytes w) ≡ length bytes + 2
unfolding append_u16_be
length-append_u16_be bytes w = simp length-append (omega arith)

length-append_all :
    (bytes vs : List ℕ) → length (append_all bytes vs) ≡ length bytes + length vs * 2
unfolding append_all
length-append_all bytes [] = omega arith
length-append_all bytes (v ∷ vs) =
    omega (arith, length-append_all (append_u16_be bytes v) vs, length-append_u16_be bytes v)

module _ (bank : RegisterBank) where
  open bank use {State, read, write_single, write_multiple}

  -- A response, where there is one, is a function code with at least one byte more, and fits the
  -- 253 bytes of a PDU. Nothing is thrown.
  abbrev pub Fits : Result Error (Option Response × State) → Type 0
  Fits (err e) = ⊥
  Fits (ok (none, s)) = Unit {0}
  Fits (ok (some r, s)) = (2 ≤ length r.pdu) × (length r.pdu ≤ 252)

  refuse_Fits :
      (s : State) (q : Request) (f : ℕ) (e : ExceptionCode) → Fits (reply bank s q (exception f e))
  unfolding reply exception
  refuse_Fits s q f e = omega arith

  handle_read-Fits : (s : State) (q : Request) (f : ℕ) (b : Bool) → Fits (handle_read bank s q f b)
  unfolding handle_read reply silence exception
  handle_read-Fits s q f b = elim (Bool-cases (length q.pdu == 5)) [
    | inl five ↦
        (let (a, ea) = u16_at_ok q.pdu 1 (ground arith) in
          let (n, en) = u16_at_ok q.pdu 3 (ground arith) in
          let r = read s f a n in
          rw (five, ea, en)
            (ground (arith, length-append_all (f ∷ (length r.values * 2) % 2 ^ 8 ∷ []) r.values)))
    | inr other ↦ rw other (ground arith)
  ]

  handle_write_single-Fits :
      (s : State) (q : Request) (f : ℕ) (b : Bool) → Fits (handle_write_single bank s q f b)
  unfolding handle_write_single unless_broadcast reply silence exception
  handle_write_single-Fits s q f b = elim (Bool-cases (length q.pdu == 5)) [
    | inl five ↦
        (let (a, ea) = u16_at_ok q.pdu 1 (ground arith) in
          let (v, ev) = u16_at_ok q.pdu 3 (ground arith) in rw (five, ea, ev) (ground arith))
    | inr other ↦ rw other (ground arith)
  ]

  abbrev inconsistent : Request → ℕ → Bool
  inconsistent q n =
      n == 0
      || ltb 123 n
      || not (octet_at q.pdu 5 == n * 2)
      || not (length q.pdu == 6 + octet_at q.pdu 5)

  refusal-Fits :
      (s : State) (q : Request) (f : ℕ) (b : Bool)
      → Fits (unless_broadcast bank b s (reply bank s q (exception f illegal_data_value)))
  unfolding unless_broadcast reply silence exception
  refusal-Fits s q f true = tt
  refusal-Fits s q f false = omega arith

  answer-Fits :
      (s : State) (q : Request) (f : ℕ) (b : Bool) (a n : ℕ) (e : ExceptionCode)
      → Fits (
          if b
          then silence bank s
          else if not (is_success e)
          then reply bank s q (exception f e)
          else reply bank s q (append_u16_be (append_u16_be (f ∷ []) a) n))
  unfolding reply silence exception
  answer-Fits s q f b a n e =
      ground
        (arith, length-append_u16_be (f ∷ []) a, length-append_u16_be (append_u16_be (f ∷ []) a) n)

  handle_write_multiple-Fits :
      (s : State) (q : Request) (f : ℕ) (b : Bool) → Fits (handle_write_multiple bank s q f b)
  unfolding handle_write_multiple
  handle_write_multiple-Fits s q f b = elim (Bool-cases (ltb (length q.pdu) 6)) [
    | inl short ↦ rw short (refusal-Fits s q f b)
    | inr long ↦
        (let (n, en) = u16_at_ok q.pdu 3 (ground arith) in
          rw (long, en)
            (elim (Bool-cases (inconsistent q n)) [
              | inl bad ↦ rw bad (refusal-Fits s q f b)
              | inr good ↦
                  (let (a, ea) = u16_at_ok q.pdu 1 (ground arith) in
                    let (vs, evs) = read_values_ok n 0 q.pdu (unfold octet_at in ground arith) in
                    rw (good, evs, ea)
                      (answer-Fits (write_multiple s a vs).1 q f b a n (write_multiple s a vs).0))
            ]))
  ]

  silence-Fits : (s : State) → Fits (silence bank s)
  unfolding silence
  silence-Fits s = tt

  unknown-Fits :
      (s : State) (q : Request) (f : ℕ) (b : Bool)
      → Fits (unless_broadcast bank b s (reply bank s q (exception f illegal_function)))
  unfolding unless_broadcast
  unknown-Fits s q f true = silence-Fits s
  unknown-Fits s q f false = refuse_Fits s q f illegal_function

  dispatch-Fits : (s : State) (q : Request) (f : ℕ) (b : Bool) → Fits (dispatch bank s q f b)
  unfolding dispatch
  dispatch-Fits s q f b = elim (Bool-cases (is_register_read f)) [
    | inl e ↦ rw e (handle_read-Fits s q f b)
    | inr e ↦ rw e (elim (Bool-cases (f == 0x06)) [
      | inl e ↦ rw e (handle_write_single-Fits s q f b)
      | inr e ↦ rw e (elim (Bool-cases (f == 0x10)) [
        | inl e ↦ rw e (handle_write_multiple-Fits s q f b)
        | inr e ↦ rw e (unknown-Fits s q f b)
      ])
    ])
  ]

  -- Whatever the PDU, a configured unit id makes the handler return: it throws nothing, and a
  -- response has at least 2 and at most 252 bytes.
  pub handle-Fits :
      (s : State) (q : Request) (unit : ℕ) → 1 ≤ unit → unit ≤ 247 → Fits (handle bank s q unit)
  unfolding handle
  handle-Fits s q unit lo hi =
      let set : (unit == 0 || ltb 247 unit) ≡ false = ground arith in rw set (any_pdu q.pdu)
    where
      any_pdu :
          (pdu : List ℕ)
          → Fits (elim pdu [
            | [] ↦ reply bank s q (exception 0 illegal_function)
            | function ∷ rest ↦
                (let broadcast = q.broadcast_allowed && q.unit_id == 0 in
                  if not broadcast && not (q.unit_id == unit)
                  then silence bank s
                  else dispatch bank s q function broadcast)
          ])
      any_pdu [] = refuse_Fits s q 0 illegal_function
      any_pdu (f ∷ rest) =
          let broadcast = q.broadcast_allowed && q.unit_id == 0 in
          elim (Bool-cases (not broadcast && not (q.unit_id == unit))) [
            | inl e ↦ rw e (silence-Fits s)
            | inr e ↦ rw e (dispatch-Fits s q f broadcast)
          ]
