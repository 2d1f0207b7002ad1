-- ===== src/Modbus/Tcp.antt =====
-- common/mnc/modbus/tcp_server.cpp: a client's session (`session`) over a socket. Boost.Asio's
-- socket is a parameter.
pub mod Sessions
pub mod Slots
pub mod Examples
use msap1_apu.Prelude.{
  ℕ, zero, suc, ◌+◌, ◌-◌, ◌^◌, ◌%◌, ◌≡◌, Bool, true, false, not, ◌||◌, List, [], ◌∷◌, ◌++◌, Option,
  none, some, Result, ok, err, ltb, ◌==◌, if◌then◌else◌, length, take, drop, get_or, ◌>>=◌,
}
use msap1_apu.Modbus.Encoding.{Error, read_u16_be, append_u16_be}
use msap1_apu.Modbus.Handler.{RegisterBank, Request, Response, handle, u16_at}

abbrev pub tcp_header_size : ℕ
tcp_header_size = 7

abbrev pub maximum_pdu_size : ℕ
maximum_pdu_size = 253

-- A TCP socket. While it is connected, `async_read` completes with exactly the bytes asked for once
-- they have arrived, and `async_write` completes when it has sent all its bytes.
pub record TcpSocket : Type 1 where
  pub State : Type 0
  pub async_read : ℕ → State → Option (List ℕ × State)
  pub async_write : List ℕ → State → Option State
  pub arriving : State → List ℕ
  pub sent : State → List ℕ
  pub IsConnected : State → Type 0
  pub async_read_exact :
      (s : State) (bytes rest : List ℕ)
      → IsConnected s
      → arriving s ≡ bytes ++ rest
      → (t : State) × (async_read (length bytes) s ≡ some (bytes, t))
        × (arriving t ≡ rest)
        × (sent t ≡ sent s)
        × IsConnected t
  pub async_write_exact :
      (s : State) (bytes : List ℕ)
      → IsConnected s
      → (t : State) × (async_write bytes s ≡ some t)
        × (arriving t ≡ arriving s)
        × (sent t ≡ sent s ++ bytes)
        × IsConnected t

-- The bytes of a response: `append_u16_be` three times, the unit, the PDU.
unfoldable pub response_adu : ℕ → Response → List ℕ
response_adu transaction response =
    let transaction_id = append_u16_be [] transaction in
    let protocol = append_u16_be transaction_id 0 in
    let size = append_u16_be protocol ((length response.pdu + 1) % 2 ^ 16) in
    (size ++ (response.unit_id ∷ [])) ++ response.pdu

-- `transaction`, and `length` when the header is valid.
unfoldable pub mbap : List ℕ → Result Error (ℕ × Option ℕ)
mbap header = do
  transaction ← u16_at header 0
  protocol ← u16_at header 2
  size ← u16_at header 4
  if not (protocol == 0) || ltb size 2 || ltb (maximum_pdu_size + 1) size
      then ok (transaction, none)
      else ok (transaction, some size)

module _ (socket : TcpSocket) (bank : RegisterBank) where
  -- How a session ends: the run is no longer current, the socket fails, the header is invalid, or
  -- the handler throws. The bank and the socket are kept where the session leaves them.
  pub data Ended : Type 0 where
    stopped : bank.State → socket.State → Ended
    disconnected : bank.State → Ended
    invalid_header : bank.State → socket.State → Ended
    failed : Error → Ended

  -- What one round leaves: the states for the next round, or the end.
  pub data Round : Type 0 where
    next : bank.State → socket.State → Round
    end : Ended → Round

  sent_or_lost : bank.State → Option socket.State → Round
  sent_or_lost s none = end (disconnected s)
  sent_or_lost s (some t) = next s t

  answer : ℕ → socket.State → Result Error (Option Response × bank.State) → Round
  answer transaction t (err e) = end (failed e)
  answer transaction t (ok (none, s)) = next s t
  answer transaction t (ok (some response, s)) =
      sent_or_lost s (socket.async_write (response_adu transaction response) t)

  read_pdu : ℕ → bank.State → List ℕ → ℕ → Option (List ℕ × socket.State) → Round
  read_pdu unit_id s header transaction none = end (disconnected s)
  read_pdu unit_id s header transaction (some (pdu, t)) = answer transaction t (
      handle bank s (record { unit_id = get_or header 6 0; pdu = pdu; broadcast_allowed = false })
        unit_id)

  read_body : ℕ → bank.State → List ℕ → socket.State → Result Error (ℕ × Option ℕ) → Round
  read_body unit_id s header t (err e) = end (failed e)
  read_body unit_id s header t (ok (transaction, none)) = end (invalid_header s t)
  read_body unit_id s header t (ok (transaction, some size)) =
      read_pdu unit_id s header transaction (socket.async_read (size - 1) t)

  read_header : ℕ → bank.State → Option (List ℕ × socket.State) → Round
  read_header unit_id s none = end (disconnected s)
  read_header unit_id s (some (header, t)) = read_body unit_id s header t (mbap header)

  -- One round of `while (current(run))`.
  unfoldable pub session_round : ℕ → bank.State → socket.State → Round
  unfolding sent_or_lost answer read_pdu read_body read_header
  session_round unit_id s t = read_header unit_id s (socket.async_read tcp_header_size t)

  -- The loop, where `current(run)` holds that many times.
  unfoldable pub session : ℕ → ℕ → bank.State → socket.State → Ended
  session zero unit_id s t = stopped s t
  session (suc rounds) unit_id s t = elim (session_round unit_id s t) [
    | end e ↦ e
    | next s' t' ↦ session rounds unit_id s' t'
  ]
