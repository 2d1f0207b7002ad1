-- ===== src/Ipc/Bytes/Laws.antt =====
-- What ByteReader returns on the bytes that stand before it.
use msap1_apu.Prelude.{
  ℕ, zero, suc, ◌+◌, ◌^◌, ◌≤◌, ◌<◌, ◌≡◌, sym, ap, ◌∙◌, List, [], ◌∷◌, ◌++◌, arith, ok, err, length,
  take, drop, All, drop-drop, length-drop, length-take, length-append, take-append-drop,
  take-append_exact, drop-append_exact, ==_refl,
}
use msap1_apu.Ipc.Bytes.{
  truncated_payload, IsByte, ByteReader, remaining, take_bytes, read_uint, read_little,
}
use msap1_apu.Ipc.Bytes.Little.{
  digits, from_digits, length-digits, digits-IsByte, from_digits-digits, from_digits-lt,
  digits-from_digits, read_little_loop_lem,
}

abbrev pub advance : ByteReader → ℕ → ByteReader
advance r n = record r { offset = r.offset + n }

-- What the reader has not read.
abbrev pub ahead : ByteReader → List ℕ
ahead r = drop r.offset r.content

pub remaining-ahead : (r : ByteReader) → remaining r ≡ length (ahead r)
unfolding remaining
remaining-ahead r = sym (length-drop r.offset r.content)

pub ahead-advance : (r : ByteReader) (n : ℕ) → ahead (advance r n) ≡ drop n (ahead r)
ahead-advance r n = drop-drop r.offset n r.content

pub take_bytes_ok :
    (r : ByteReader) (n : ℕ)
    → n ≤ length (ahead r)
    → take_bytes r n ≡ ok (take n (ahead r), advance r n)
unfolding take_bytes
take_bytes_ok r n h = ground (arith, remaining-ahead r)

pub take_bytes_short :
    (r : ByteReader) (n : ℕ) → length (ahead r) < n → take_bytes r n ≡ err truncated_payload
unfolding take_bytes
take_bytes_short r n h = ground (arith, remaining-ahead r)

All-drop : (n : ℕ) (bs : List ℕ) → All IsByte bs → All IsByte (drop n bs)
All-drop zero bs h = h
All-drop (suc n) [] h = tt
All-drop (suc n) (b ∷ bs) h = All-drop n bs h.1

pub All-take : (n : ℕ) (bs : List ℕ) → All IsByte bs → All IsByte (take n bs)
All-take zero bs h = tt
All-take (suc n) [] h = tt
All-take (suc n) (b ∷ bs) h = (h.0, All-take n bs h.1)

pub read_uint_ok :
    (r : ByteReader) (n : ℕ)
    → All IsByte (ahead r)
    → n ≤ length (ahead r)
    → read_uint n r ≡ ok (from_digits (take n (ahead r)), advance r n)
unfolding read_uint read_little
read_uint_ok r n b h =
    let exact : length (take n (ahead r)) ≡ n = omega (arith, length-take n (ahead r)) in
    rw (take_bytes_ok r n h, exact, ==_refl n, read_little_loop_lem _ (All-take n _ b))

-- Reading a field back where it was written.
pub read_uint-digits :
    (r : ByteReader) (n v : ℕ) (rest : List ℕ)
    → ahead r ≡ digits n v ++ rest
    → v < 256 ^ n
    → (read_uint n r ≡ ok (v, advance r n)) × (ahead (advance r n) ≡ rest)
unfolding read_uint read_little
read_uint-digits r n v rest e h =
    let size : length (digits n v) ≡ n = length-digits n v in
    let fits : n ≤ length (ahead r) =
      omega (arith, ap length e, length-append (digits n v) rest, size) in
    let field : take n (ahead r) ≡ digits n v =
      ap (take n) e ∙ take-append_exact n (digits n v) rest size in
    (
      rw (
        take_bytes_ok r n fits,
        field,
        size,
        ==_refl n,
        read_little_loop_lem _ (digits-IsByte n v),
        from_digits-digits n v h,
      ),
      ahead-advance r n ∙ ap (drop n) e ∙ drop-append_exact n (digits n v) rest size,
    )

-- The first `n` bytes are the digits of a number; `m` bytes come behind them.
pub split_digits :
    (n m : ℕ) (bs : List ℕ)
    → length bs ≡ n + m
    → All IsByte bs
    → (v : ℕ) × (rest : List ℕ) × (v < 256 ^ n)
      × (bs ≡ digits n v ++ rest)
      × (length rest ≡ m)
      × All IsByte rest
split_digits n m bs h b =
    let size : length (take n bs) ≡ n = omega (arith, length-take n bs) in
    let bytes = All-take n bs b in
    (
      from_digits (take n bs),
      drop n bs,
      rw size at (from_digits-lt (take n bs) bytes),
      rw (digits-from_digits n (take n bs) size bytes, take-append-drop n bs),
      omega (arith, length-drop n bs),
      All-drop n bs b,
    )
