-- ===== src/Ipc/Envelope/RoundTrip.antt =====
-- Encoding and decoding an envelope.
use msap1_apu.Prelude.{
  ℕ, ◌^◌, ◌≤◌, ◌<◌, ◌≡◌, refl, sym, ap, ◌∙◌, true, not, ◌||◌, List, [], ◌++◌, arith, Result, ok,
  ◌>>◌, ensure, length, All, append_assoc, append-nil, le→ltb, length-eq-zero, ==_refl, ltb, ◌==◌,
}
use native.Mathlib.Nat.{mod-eq_of_lt}
use msap1_apu.Ipc.Bytes.{
  Error, envelope_magic_mismatch, unsupported_version, invalid_kind, payload_size_mismatch, IsByte,
  reader, remaining, read_u16, read_u32, read_u64, write_u16, write_u32, write_u64,
  require_finished,
}
use msap1_apu.Ipc.Bytes.Little.{digits, append_little-digits}
use msap1_apu.Ipc.Bytes.Laws.{read_uint-digits, advance, split_digits}
use msap1_apu.Ipc.Envelope.{
  Frame, valid_kind, encode_envelope, decode_envelope, envelope_magic, envelope_version,
}

-- The fields of a frame fit the widths of their C++ types, and its kind is a known one.
pub record IsWire (f : Frame) : Type 0 where
  pub known : valid_kind f.kind ≡ true
  pub kind_fits : f.kind < 2 ^ 16
  pub type_fits : f.message_type < 2 ^ 32
  pub correlation_fits : f.correlation_id < 2 ^ 64
  pub size_fits : length f.payload < 2 ^ 32

-- A header of six fields, as digits.
abbrev pub layout : ℕ → ℕ → ℕ → ℕ → ℕ → ℕ → List ℕ
layout magic version kind message_type size correlation =
    digits 4 magic
    ++ (digits 2 version
        ++ (digits 2 kind ++ (digits 4 message_type ++ (digits 4 size ++ digits 8 correlation))))

abbrev pub envelope : Frame → List ℕ
envelope f =
    layout envelope_magic envelope_version f.kind f.message_type (length f.payload) f.correlation_id

pub encode_envelope_lem : (f : Frame) → IsWire f → encode_envelope f ≡ ok (envelope f)
unfolding encode_envelope write_u16 write_u32 write_u64
encode_envelope_lem f w =
    rw
      (
        w.known,
        mod-eq_of_lt w.size_fits,
        le→ltb 0xffff_ffff (length f.payload) (omega (arith, w.size_fits)),
      )
      (simp (append_little-digits, append_assoc))

pub length-layout : (m v k t s c : ℕ) → length (layout m v k t s c) ≡ 24
length-layout m v k t s c = unfold digits in refl

-- The six reads of a header, one after the other.
module _ (m v k t s c : ℕ) where
  abbrev pub header : List ℕ
  header = layout m v k t s c

  pub record Reads : Type 0 where
    pub magic : read_u32 (reader header) ≡ ok (m, advance (reader header) 4)
    pub version : read_u16 (advance (reader header) 4) ≡ ok (v, advance (reader header) 6)
    pub kind : read_u16 (advance (reader header) 6) ≡ ok (k, advance (reader header) 8)
    pub message_type : read_u32 (advance (reader header) 8) ≡ ok (t, advance (reader header) 12)
    pub size : read_u32 (advance (reader header) 12) ≡ ok (s, advance (reader header) 16)
    pub correlation : read_u64 (advance (reader header) 16) ≡ ok (c, advance (reader header) 24)
    pub finished : require_finished (advance (reader header) 24) ≡ ok tt

  module _ (hm : m < 2 ^ 32) (hv : v < 2 ^ 16) (hk : k < 2 ^ 16) (ht : t < 2 ^ 32) where
    pub reads : s < 2 ^ 32 → c < 2 ^ 64 → Reads
    unfolding read_u16 read_u32 read_u64 reader
    reads hs hc =
        let r = reader header in
        let (magic, at4) = read_uint-digits r 4 m _ refl hm in
        let (version, at6) = read_uint-digits (advance r 4) 2 v _ at4 hv in
        let (kind, at8) = read_uint-digits (advance r 6) 2 k _ at6 hk in
        let (message_type, at12) = read_uint-digits (advance r 8) 4 t _ at8 ht in
        let (size, at16) = read_uint-digits (advance r 12) 4 s _ at12 hs in
        let (correlation, at24) =
          read_uint-digits (advance r 16) 8 c [] (at16 ∙ sym (append-nil _)) hc in
        record {
          magic = magic;
          version = version;
          kind = kind;
          message_type = message_type;
          size = size;
          correlation = correlation;
          finished = unfold require_finished remaining digits in refl;
        }

-- What `decode_envelope` asks of the six fields.
checks : ℕ → ℕ → ℕ → ℕ → ℕ → ℕ → List ℕ → ℕ → Result Error Frame
checks m v k t s c payload max_payload = do
  ensure (m == envelope_magic) envelope_magic_mismatch
  ensure (v == envelope_version) unsupported_version
  ensure (valid_kind k) invalid_kind
  ensure (not (ltb max_payload s || not (s == length payload))) payload_size_mismatch
  ok (record { kind = k; message_type = t; correlation_id = c; payload = payload })

decode_envelope-layout :
    (m v k t s c : ℕ) (payload : List ℕ) (max_payload : ℕ)
    → Reads m v k t s c
    → decode_envelope (layout m v k t s c) payload max_payload
      ≡ checks m v k t s c payload max_payload
unfolding decode_envelope checks
decode_envelope-layout m v k t s c payload max_payload r = rw (
  length-layout m v k t s c,
  r.magic,
  r.version,
  r.kind,
  r.message_type,
  r.size,
  r.correlation,
  r.finished,
)

-- A decoder reads back what `encode_envelope` wrote, with the payload that came behind it.
pub decode-encode_envelope :
    (f : Frame) (max_payload : ℕ) {header : List ℕ}
    → IsWire f
    → length f.payload ≤ max_payload
    → encode_envelope f ≡ ok header
    → decode_envelope header f.payload max_payload ≡ ok f
decode-encode_envelope f max_payload {header} w small e =
    let same : envelope f ≡ header = cc (encode_envelope_lem f w) in
    let size = length f.payload in
    let r =
      reads envelope_magic envelope_version f.kind f.message_type size f.correlation_id
        (omega arith) (omega arith) w.kind_fits w.type_fits w.size_fits w.correlation_fits in
    rw (← same) (
      decode_envelope-layout _ _ _ _ _ _ f.payload max_payload r
      ∙ unfold checks in rw (w.known, le→ltb max_payload size small, ==_refl size))

record Fields (bytes : List ℕ) : Type 0 where
  m : ℕ
  v : ℕ
  k : ℕ
  t : ℕ
  s : ℕ
  c : ℕ
  same : bytes ≡ layout m v k t s c
  m_fits : m < 2 ^ 32
  v_fits : v < 2 ^ 16
  k_fits : k < 2 ^ 16
  t_fits : t < 2 ^ 32
  s_fits : s < 2 ^ 32
  c_fits : c < 2 ^ 64

last_field :
    (bytes : List ℕ) (c : ℕ) (rest : List ℕ)
    → bytes ≡ digits 8 c ++ rest
    → length rest ≡ 0
    → bytes ≡ digits 8 c
last_field bytes c rest e h =
    e ∙ ap (◌++◌ (digits 8 c)) (length-eq-zero rest h) ∙ append-nil (digits 8 c)

-- Every 24 bytes are the layout of six fields.
fields : (bytes : List ℕ) → length bytes ≡ 24 → All IsByte bytes → Fields bytes
fields bytes e b =
    let (m, b4, hm, em, l4, a4) = split_digits 4 20 bytes e b in
    let (v, b6, hv, ev, l6, a6) = split_digits 2 18 b4 l4 a4 in
    let (k, b8, hk, ek, l8, a8) = split_digits 2 16 b6 l6 a6 in
    let (t, b12, ht, et, l12, a12) = split_digits 4 12 b8 l8 a8 in
    let (s, b16, hs, es, l16, a16) = split_digits 4 8 b12 l12 a12 in
    let (c, b24, hc, ec, l24, a24) = split_digits 8 0 b16 l16 a16 in
    record {
      m = m;
      v = v;
      k = k;
      t = t;
      s = s;
      c = c;
      same =
          em
          ∙ ap (◌++◌ (digits 4 m)) (
              ev
              ∙ ap (◌++◌ (digits 2 v)) (
                  ek
                  ∙ ap (◌++◌ (digits 2 k)) (
                      et
                      ∙ ap (◌++◌ (digits 4 t))
                          (es ∙ ap (◌++◌ (digits 4 s)) (last_field b16 c b24 ec l24)))));
      m_fits = hm;
      v_fits = hv;
      k_fits = hk;
      t_fits = ht;
      s_fits = hs;
      c_fits = hc;
    }

decode_envelope-length :
    (header payload : List ℕ) (max_payload : ℕ) (f : Frame)
    → decode_envelope header payload max_payload ≡ ok f
    → length header ≡ 24
unfolding decode_envelope
decode_envelope-length header payload max_payload f e = ground arith

-- What a frame and its header have in common with the payload that was read.
pub record Decoded (header payload : List ℕ) (max_payload : ℕ) (f : Frame) : Type 0 where
  pub wire : IsWire f
  pub same_payload : f.payload ≡ payload
  pub small : length payload ≤ max_payload
  pub same_header : encode_envelope f ≡ ok header

checks-Decoded :
    (m v k t s c : ℕ) (payload : List ℕ) (max_payload : ℕ) (f : Frame)
    → k < 2 ^ 16
    → t < 2 ^ 32
    → s < 2 ^ 32
    → c < 2 ^ 64
    → checks m v k t s c payload max_payload ≡ ok f
    → IsWire f
      × (f.payload ≡ payload)
      × (length payload ≤ max_payload)
      × (layout m v k t s c ≡ envelope f)
unfolding checks
checks-Decoded m v k t s c payload max_payload f hk ht hs hc e = ground arith

-- Whatever the decoder accepts is exactly what the encoder writes for the frame it returns: no
-- other header decodes to that frame.
pub decode_envelope_sound :
    (header payload : List ℕ) (max_payload : ℕ) (f : Frame)
    → All IsByte header
    → decode_envelope header payload max_payload ≡ ok f
    → Decoded header payload max_payload f
decode_envelope_sound header payload max_payload f b e =
    let h = fields header (decode_envelope-length header payload max_payload f e) b in
    let r = reads h.m h.v h.k h.t h.s h.c h.m_fits h.v_fits h.k_fits h.t_fits h.s_fits h.c_fits in
    let passed : checks h.m h.v h.k h.t h.s h.c payload max_payload ≡ ok f =
      sym (decode_envelope-layout h.m h.v h.k h.t h.s h.c payload max_payload r)
      ∙ ap (λ x. decode_envelope x payload max_payload) (sym h.same)
      ∙ e in
    let (wire, same_payload, small, same_header) =
      checks-Decoded h.m h.v h.k h.t h.s h.c payload max_payload f h.k_fits h.t_fits h.s_fits
        h.c_fits passed in
    record {
      wire = wire;
      same_payload = same_payload;
      small = small;
      same_header = encode_envelope_lem f wire ∙ ap ok (sym same_header ∙ sym h.same);
    }
