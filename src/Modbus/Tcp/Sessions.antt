-- ===== src/Modbus/Tcp/Sessions.antt =====
-- A session answers the requests of its client one after the other.
use msap1_apu.Prelude.{
  ℕ, suc, ◌+◌, ◌-◌, ◌^◌, ◌/◌, ◌%◌, ◌≤◌, ◌<◌, ◌≡◌, ◌≢◌, ◌⊎◌, inl, inr, refl, sym, ap, ◌∙◌, subst,
  false, List, [], ◌∷◌, ◌++◌, none, some, ok, ◌==◌, if◌then◌else◌, length, arith, All, append_assoc,
  append-nil, Bool-cases,
}
use msap1_apu.Modbus.Encoding.{IsWord, append_u16_be_lem}
use msap1_apu.Modbus.Handler.{RegisterBank, Response, handle}
use msap1_apu.Modbus.Handler.Requests.{
  Command, read_registers, write_one, write_many, IsCommand, HasWords, serve, encode_command,
  encode_answer, big_endian, word_read, length-big_endian,
}
use msap1_apu.Modbus.Handler.Replies.{handle_served, handle_other_unit, request_of, answered}
use msap1_apu.Modbus.Handler.Bounds.{Fits, handle-Fits}
use msap1_apu.Modbus.Tcp.{
  TcpSocket, response_adu, mbap, session, session_round, stopped, invalid_header, next, end,
}

-- A request of a client.
pub record Query : Type 0 where
  pub transaction : ℕ
  pub unit : ℕ
  pub command : Command

pub record IsQuery (q : Query) : Type 0 where
  pub transaction_fits : IsWord q.transaction
  pub valid : IsCommand q.command

-- The frame of the protocol: transaction, protocol 0, length, unit, PDU.
abbrev pub adu : ℕ → ℕ → List ℕ → List ℕ
adu transaction unit pdu = big_endian (transaction ∷ 0 ∷ (length pdu + 1) ∷ []) ++ (unit ∷ pdu)

abbrev pub query_bytes : List Query → List ℕ
query_bytes [] = []
query_bytes (q ∷ qs) = adu q.transaction q.unit (encode_command q.command) ++ query_bytes qs

mbap-adu :
    (transaction unit : ℕ) (n : ℕ)
    → IsWord transaction
    → 1 ≤ n
    → n ≤ 253
    → mbap (big_endian (transaction ∷ 0 ∷ (n + 1) ∷ []) ++ (unit ∷ []))
      ≡ ok (transaction, some (n + 1))
unfolding mbap
mbap-adu transaction unit n h lo hi =
    rw
      (word_read transaction [] h, word_read 0 [] (omega arith), word_read (n + 1) [] (omega arith))
      (ground arith)

mbap_bad :
    (transaction protocol size unit : ℕ)
    → IsWord transaction
    → IsWord protocol
    → IsWord size
    → (protocol ≢ 0) ⊎ ((size < 2) ⊎ (254 < size))
    → mbap (big_endian (transaction ∷ protocol ∷ size ∷ []) ++ (unit ∷ [])) ≡ ok (transaction, none)
unfolding mbap
mbap_bad transaction protocol size unit ht hp hs bad =
    rw (word_read transaction [] ht, word_read protocol [] hp, word_read size [] hs) (ground arith)

response_adu_lem :
    (transaction : ℕ) (r : Response)
    → IsWord transaction
    → length r.pdu ≤ 252
    → response_adu transaction r ≡ adu transaction r.unit_id r.pdu
unfolding response_adu
response_adu_lem transaction r h small =
    let first = transaction / 256 ∷ transaction % 256 ∷ [] in
    let size : (length r.pdu + 1) % 2 ^ 16 ≡ length r.pdu + 1 = omega arith in
    rw
      (
        append_u16_be_lem [] transaction h,
        size,
        append_u16_be_lem first 0 (omega arith),
        append_u16_be_lem (first ++ (0 ∷ 0 ∷ [])) (length r.pdu + 1) (omega arith),
      )
      refl

command-nonempty : (c : Command) → encode_command c ≢ []
command-nonempty (read_registers f a n) e = cc e
command-nonempty (write_one a v) e = cc e
command-nonempty (write_many a vs) e = cc e

length-command :
    (c : Command)
    → IsCommand c
    → (1 ≤ length (encode_command c)) × (length (encode_command c) ≤ 253)
length-command (read_registers f a n) h = omega arith
length-command (write_one a v) h = omega arith
length-command (write_many a vs) (_, _, few, many) = omega (arith, length-big_endian vs)

module _ (socket : TcpSocket) (bank : RegisterBank) (unit_id : ℕ) where
  -- What the session sends for a request, and the bank after it.
  unfoldable pub reply_to : bank.State → Query → List ℕ × bank.State
  reply_to s q =
      let (answer, s') = serve bank s q.command in
      if q.unit == unit_id
      then (adu q.transaction q.unit (encode_answer q.command answer), s')
      else ([], s)

  unfoldable pub replies : bank.State → List Query → List ℕ × bank.State
  replies s [] = ([], s)
  replies s (q ∷ qs) =
      let (first, s1) = reply_to s q in let (later, s2) = replies s1 qs in (first ++ later, s2)

  -- What a round does to the socket and the bank.
  abbrev RoundDone : bank.State → socket.State → List ℕ → bank.State → List ℕ → Type 0
  RoundDone s t bytes s' rest =
      (t' : socket.State) × (session_round socket bank unit_id s t ≡ next s' t')
      × (socket.arriving t' ≡ rest)
      × (socket.sent t' ≡ socket.sent t ++ bytes)
      × socket.IsConnected t'

  round_answered :
      (s : bank.State) (t : socket.State) (q : Query) (rest : List ℕ)
      → HasWords bank
      → IsQuery q
      → 1 ≤ unit_id
      → unit_id ≤ 247
      → socket.IsConnected t
      → socket.arriving t ≡ adu q.transaction q.unit (encode_command q.command) ++ rest
      → RoundDone s t (reply_to s q).0 (reply_to s q).1 rest
  unfolding session_round reply_to
  round_answered s t q rest words iq lo hi live e =
      let pdu = encode_command q.command in
      let size = length-command q.command iq.valid in
      let header = big_endian (q.transaction ∷ 0 ∷ (length pdu + 1) ∷ []) ++ (q.unit ∷ []) in
      let (t1, r1, a1, s1, live1) = socket.async_read_exact t header (pdu ++ rest) live e in
      let (t2, r2, a2, s2, live2) = socket.async_read_exact t1 pdu rest live1 a1 in
      let parsed = mbap-adu q.transaction q.unit (length pdu) iq.transaction_fits size.0 size.1 in
      let back : length pdu + 1 - 1 ≡ length pdu = omega arith in
      elim (Bool-cases (q.unit == unit_id)) [
        | inl mine ↦
            (let same : q.unit ≡ unit_id = ground arith in
              let asked = request_of bank q.unit false q.command in
              let handled : handle bank s asked unit_id ≡ ok (answered bank s q.unit q.command) =
                ap (handle bank s asked) (sym same)
                ∙ handle_served bank s q.unit false q.command words iq.valid (omega arith)
                    (omega arith) in
              let fits = subst (Fits bank) handled (handle-Fits bank s asked unit_id lo hi) in
              let response : Response = record {
                unit_id = q.unit;
                pdu = encode_answer q.command (serve bank s q.command).0;
              } in
              let bytes = response_adu_lem q.transaction response iq.transaction_fits fits.1 in
              let (t3, w, a3, s3, live3) =
                socket.async_write_exact t2 (response_adu q.transaction response) live2 in
              (
                t3,
                rw (r1, parsed, back, r2, handled, w, mine) refl,
                a3 ∙ a2,
                rw mine (
                    s3
                    ∙ ap (λ bs. socket.sent t2 ++ bs) bytes
                    ∙ ap (λ bs. bs ++ adu q.transaction q.unit response.pdu) (s2 ∙ s1)),
                live3,
              ))
        | inr other ↦
            (let ignored =
                handle_other_unit bank s (request_of bank q.unit false q.command) unit_id lo hi
                  (command-nonempty q.command) (ground arith) refl in
              (
                t2,
                rw (r1, parsed, back, r2, ignored, other) refl,
                a2,
                rw other (s2 ∙ s1 ∙ sym (append-nil _)),
                live2,
              ))
      ]

  -- A client's requests are served one after the other: to each request for the configured unit the
  -- session sends the answer of the register bank under the request's transaction number, in order,
  -- and the bank goes through the same changes; a request to another unit is neither answered nor
  -- carried out.
  pub session_served :
      (qs : List Query) (s : bank.State) (t : socket.State) (rest : List ℕ)
      → HasWords bank
      → All IsQuery qs
      → 1 ≤ unit_id
      → unit_id ≤ 247
      → socket.IsConnected t
      → socket.arriving t ≡ query_bytes qs ++ rest
      → (t' : socket.State) × (session socket bank (length qs) unit_id s t
          ≡ stopped (replies s qs).1 t')
        × (socket.arriving t' ≡ rest)
        × (socket.sent t' ≡ socket.sent t ++ (replies s qs).0)
  unfolding session replies
  session_served [] s t rest words valid lo hi live e = (t, refl, e, sym (append-nil _))
  session_served (q ∷ qs) s t rest words (iq, valid) lo hi live e =
      let bytes = adu q.transaction q.unit (encode_command q.command) in
      let (t1, r1, a1, s1, live1) =
        round_answered s t q (query_bytes qs ++ rest) words iq lo hi live
          (e ∙ append_assoc bytes (query_bytes qs) rest) in
      let (t2, r2, a2, s2) =
        session_served qs (reply_to s q).1 t1 rest words valid lo hi live1 a1 in
      (
        t2,
        rw (session, r1, r2) refl,
        a2,
        s2 ∙ ap (λ bs. bs ++ (replies (reply_to s q).1 qs).0) s1 ∙ append_assoc (socket.sent t) _ _,
      )

  round_invalid :
      (s : bank.State) (t t' : socket.State) (header : List ℕ) (transaction : ℕ)
      → socket.async_read 7 t ≡ some (header, t')
      → mbap header ≡ ok (transaction, none)
      → session_round socket bank unit_id s t ≡ end (invalid_header s t')
  unfolding session_round
  round_invalid s t t' header transaction r bad = rw (r, bad) refl

  -- A header whose protocol number is not 0, or whose length is below 2 or above 254, ends the
  -- session: nothing is sent, and the bank is as it was.
  session_invalid :
      (s : bank.State) (t : socket.State) (transaction protocol size unit rounds : ℕ)
      (rest : List ℕ)
      → IsWord transaction
      → IsWord protocol
      → IsWord size
      → (protocol ≢ 0) ⊎ ((size < 2) ⊎ (254 < size))
      → socket.IsConnected t
      → socket.arriving t ≡ (big_endian (transaction ∷ protocol ∷ size ∷ []) ++ (unit ∷ [])) ++ rest
      → (t' : socket.State) × (session socket bank (suc rounds) unit_id s t ≡ invalid_header s t')
        × (socket.sent t' ≡ socket.sent t)
  unfolding session
  session_invalid s t transaction protocol size unit rounds rest ht hp hs bad live e =
      let header = big_endian (transaction ∷ protocol ∷ size ∷ []) ++ (unit ∷ []) in
      let (t1, r1, a1, s1, live1) = socket.async_read_exact t header rest live e in
      let refused =
        round_invalid s t t1 header transaction r1
          (mbap_bad transaction protocol size unit ht hp hs bad) in
      (t1, rw (session, refused) refl, s1)
