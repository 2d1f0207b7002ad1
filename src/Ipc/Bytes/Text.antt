-- ===== src/Ipc/Bytes/Text.antt =====
-- ByteWriter::fixed_string and ByteReader::fixed_string.
use msap1_apu.Prelude.{
  ℕ, zero, suc, ◌+◌, ◌-◌, ◌≤◌, ◌<◌, ◌≡◌, refl, sym, ap, ◌∙◌, List, [], ◌∷◌, ◌++◌, arith, ok, err,
  length, take, drop, replicate, All, length-append, length-replicate, take-append_exact,
  drop-append_exact, ok-injective, append_assoc, le→ltb, lt→ltb,
}
use msap1_apu.Ipc.Bytes.{
  ByteReader, read_fixed_string, write_fixed_string, until_zero, string_width,
}
use msap1_apu.Ipc.Bytes.Laws.{ahead, take_bytes_ok}

until_zero-append_zeros :
    (value : List ℕ) (n : ℕ) → All (λ b. 0 < b) value → until_zero (value ++ replicate n 0) ≡ value
unfolding until_zero
until_zero-append_zeros [] zero h = refl
until_zero-append_zeros [] (suc n) h = refl
until_zero-append_zeros (zero ∷ bs) n h = absurd (omega arith)
until_zero-append_zeros (suc b ∷ bs) n h = ap (◌∷◌ (suc b)) (until_zero-append_zeros bs n h.1)

written :
    (out value : List ℕ) (width : ℕ)
    → length value ≤ width
    → write_fixed_string out value width ≡ ok (out ++ (value ++ replicate (width - length value) 0))
unfolding write_fixed_string
written out value width h = rw (le→ltb width (length value) h)

-- A text without zero bytes that fits the field is read back from behind whatever was written
-- before it, and the reader stands at the byte after the field.
read-write_fixed_string :
    (out value rest : List ℕ) (width : ℕ) {bytes : List ℕ}
    → All (λ b. 0 < b) value
    → length value ≤ width
    → write_fixed_string out value width ≡ ok bytes
    → let r : ByteReader = record { content = bytes ++ rest; offset = length out } in
      read_fixed_string r width
      ≡ ok (value, record { content = bytes ++ rest; offset = length out + width })
unfolding read_fixed_string
read-write_fixed_string out value rest width {bytes} h fits e =
    let field = value ++ replicate (width - length value) 0 in
    let whole : out ++ field ≡ bytes = ok-injective (sym (written out value width fits) ∙ e) in
    let r : ByteReader = record { content = bytes ++ rest; offset = length out } in
    let before : ahead r ≡ field ++ rest =
      ap (λ t. drop (length out) (t ++ rest)) (sym whole)
      ∙ ap (drop (length out)) (append_assoc out field rest)
      ∙ drop-append_exact (length out) out (field ++ rest) refl in
    let size : length field ≡ width = omega (
      arith,
      length-append value (replicate (width - length value) 0),
      length-replicate {A = ℕ} (width - length value) 0,
    ) in
    let front : take width (ahead r) ≡ field =
      ap (take width) before ∙ take-append_exact width field rest size in
    let enough : width ≤ length (ahead r) =
      omega (arith, ap length before, length-append field rest, size) in
    rw (take_bytes_ok r width enough, front, until_zero-append_zeros value _ h)

-- A text longer than its field is refused.
write_fixed_string_wide :
    (out value : List ℕ) (width : ℕ)
    → width < length value
    → write_fixed_string out value width ≡ err string_width
unfolding write_fixed_string
write_fixed_string_wide out value width h = rw (lt→ltb width (length value) h)
