-- ===== src/Ipc/Envelope/Stream.antt =====
-- FramedConnection::receive on the bytes that FramedConnection::enqueue puts on the wire.
use msap1_apu.Prelude.{
  ℕ, suc, ◌≤◌, ◌<◌, ◌^◌, ◌≡◌, refl, sym, ap, ◌∙◌, List, [], ◌∷◌, ◌++◌, arith, Result, ok, err,
  ◌>>=◌, length, All, append_assoc, le→ltb, lt→ltb, ok-injective, >>=-eq-ok, zero, true,
}
use msap1_apu.Ipc.Bytes.{Error, payload_too_large}
use msap1_apu.Ipc.Envelope.{
  Frame, Socket, encode_envelope, receive, read_payload, envelope_magic, envelope_version,
  envelope_size, valid_kind,
}
use msap1_apu.Ipc.Envelope.RoundTrip.{
  IsWire, layout, envelope, encode_envelope_lem, length-layout, Reads, reads,
}

-- The bytes that `enqueue` hands to the socket for one frame.
unfoldable pub wire_bytes : Frame → Result Error (List ℕ)
wire_bytes frame = do header ← encode_envelope frame; ok (header ++ frame.payload)

-- A peer that sends frames one after the other.
unfoldable pub send_all : List Frame → Result Error (List ℕ)
send_all [] = ok []
send_all (f ∷ fs) = do first ← wire_bytes f; rest ← send_all fs; ok (first ++ rest)

-- What a connection limited to `max_payload` can carry.
pub record IsCarried (max_payload : ℕ) (f : Frame) : Type 0 where
  pub wire : IsWire f
  pub small : length f.payload ≤ max_payload

wire_bytes_lem : (f : Frame) → IsWire f → wire_bytes f ≡ ok (envelope f ++ f.payload)
unfolding wire_bytes
wire_bytes_lem f w = rw (encode_envelope_lem f w)

frame_reads :
    (f : Frame)
    → IsWire f
    → Reads envelope_magic envelope_version f.kind f.message_type
        (length f.payload)
        f.correlation_id
frame_reads f w =
    reads envelope_magic envelope_version f.kind f.message_type (length f.payload) f.correlation_id
      (omega arith) (omega arith) w.kind_fits w.type_fits w.size_fits w.correlation_fits

module _ (socket : Socket) where
  open socket use {State, async_read, arriving, async_read_exact}

  -- A connection loop that takes `n` frames.
  unfoldable pub receive_all : ℕ → ℕ → State → Result Error (List Frame × State)
  receive_all zero max_payload s = ok ([], s)
  receive_all (suc n) max_payload s = do
    (f, s) ← receive socket max_payload s
    (fs, s) ← receive_all n max_payload s
    ok (f ∷ fs, s)

  read_payload_exact :
      (s : State) (payload rest : List ℕ)
      → arriving s ≡ payload ++ rest
      → (t : State) × (read_payload socket (length payload) s ≡ ok (payload, t))
        × (arriving t ≡ rest)
  unfolding read_payload
  read_payload_exact s [] rest e = (s, refl, e)
  read_payload_exact s (b ∷ bs) rest e = async_read_exact s (b ∷ bs) rest e

  pub receive-wire :
      (s : State) (f : Frame) (rest : List ℕ) (max_payload : ℕ)
      → IsCarried max_payload f
      → arriving s ≡ envelope f ++ (f.payload ++ rest)
      → (t : State) × (receive socket max_payload s ≡ ok (f, t)) × (arriving t ≡ rest)
  unfolding receive
  receive-wire s f rest max_payload c e =
      let (s1, e1, a1) = async_read_exact s (envelope f) (f.payload ++ rest) e in
      let (t, e2, a2) = read_payload_exact s1 f.payload rest a1 in
      let r = frame_reads f c.wire in
      let header : async_read envelope_size s ≡ ok (envelope f, s1) =
        ap (λ n. async_read n s) (sym (length-layout _ _ _ _ _ _)) ∙ e1 in
      (
        t,
        rw (
          header,
          r.magic,
          r.version,
          r.kind,
          c.wire.known,
          r.message_type,
          r.size,
          r.correlation,
          le→ltb max_payload (length f.payload) c.small,
          e2,
        ),
        a2,
      )

  -- The frames that a peer sends are received in order and unchanged, whatever follows them.
  pub receive_all-send_all :
      (fs : List Frame) (max_payload : ℕ) (s : State) {bytes : List ℕ} (rest : List ℕ)
      → All (IsCarried max_payload) fs
      → send_all fs ≡ ok bytes
      → arriving s ≡ bytes ++ rest
      → (t : State) × (receive_all (length fs) max_payload s ≡ ok (fs, t)) × (arriving t ≡ rest)
  unfolding send_all receive_all
  receive_all-send_all [] max_payload s {bytes} rest c e a =
      (s, refl, a ∙ ap (λ t. t ++ rest) (sym (ok-injective e)))
  receive_all-send_all (f ∷ fs) max_payload s {bytes} rest (hf, hfs) e a =
      let (first, e1, k1) = >>=-eq-ok (wire_bytes f) _ e in
      let (later, e2, k2) = >>=-eq-ok (send_all fs) _ k1 in
      let same : first ≡ envelope f ++ f.payload =
        ok-injective (sym e1 ∙ wire_bytes_lem f hf.wire) in
      let front : arriving s ≡ envelope f ++ (f.payload ++ (later ++ rest)) =
        a
        ∙ ap (λ t. t ++ rest) (sym (ok-injective k2))
        ∙ ap (λ t. (t ++ later) ++ rest) same
        ∙ append_assoc (envelope f ++ f.payload) later rest
        ∙ append_assoc (envelope f) f.payload (later ++ rest) in
      let (s1, r1, a1) = receive-wire s f (later ++ rest) max_payload hf front in
      let (t, r2, a2) = receive_all-send_all fs max_payload s1 rest hfs e2 a1 in
      (t, rw (r1, r2), a2)

  -- A header that announces more than the connection's limit is refused before its payload is
  -- read.
  receive_too_large :
      (s : State) (kind message_type size correlation max_payload : ℕ) (rest : List ℕ)
      → valid_kind kind ≡ true
      → kind < 2 ^ 16
      → message_type < 2 ^ 32
      → size < 2 ^ 32
      → correlation < 2 ^ 64
      → max_payload < size
      → arriving s
        ≡ layout envelope_magic envelope_version kind message_type size correlation ++ rest
      → receive socket max_payload s ≡ err payload_too_large
  unfolding receive
  receive_too_large s k t size c max_payload rest known hk ht hs hc large e =
      let (s1, e1, a1) =
        async_read_exact s (layout envelope_magic envelope_version k t size c) rest e in
      let r =
        reads envelope_magic envelope_version k t size c (omega arith) (omega arith) hk ht hs hc in
      let header : async_read envelope_size s
          ≡ ok (layout envelope_magic envelope_version k t size c, s1) =
        ap (λ n. async_read n s) (sym (length-layout _ _ _ _ _ _)) ∙ e1 in
      rw (
        header,
        r.magic,
        r.version,
        r.kind,
        known,
        r.message_type,
        r.size,
        r.correlation,
        lt→ltb max_payload size large,
      )
