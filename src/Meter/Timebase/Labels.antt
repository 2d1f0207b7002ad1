-- ===== src/Meter/Timebase/Labels.antt =====
-- Which samples are labelled, and with which time.
use msap1_apu.Prelude.{
  ℕ, ◌+◌, ◌-◌, ◌*◌, ◌/◌, ◌%◌, ◌^◌, ◌≤◌, ◌<◌, ◌≡◌, ◌≢◌, inl, inr, refl, ◌∙◌, true, false, Option,
  none, some, ok, ◌>>=◌, ltb, le→ltb, lt→ltb, ◌==◌, ==_refl, if◌then◌else◌, arith, Bool-cases,
}
use msap1_apu.Prelude.Integers.{
  ℤ, pos, neg, above, below, ◌+ℤ◌, to_i64, split_scaled, +ℤ-pos, +ℤ-neg, +ℤ-le, scale-neg,
  div_trunc-neg, rem_trunc-neg, neg_parts,
}
use msap1_apu.Meter.Timebase.{
  unsynchronized, TimeSyncPoint, UtcEstimate, Timebase, record_sync, quality, quality_of, i64,
  extrapolate, too_far_behind, labelled_by, utc_for_sample,
}
use native.Mathlib.Nat.{mod-lt, div-lt_iff_lt-mul}

-- A trusted sync point whose fields fit their C++ types, before the year 2116.
pub record IsSync (s : TimeSyncPoint) : Type 0 where
  pub trusted : s.utc_synchronized ≡ true
  pub counter_fits : s.sample_counter < 2 ^ 64
  pub rate_set : 1 ≤ s.sample_rate_hz
  pub rate_fits : s.sample_rate_hz < 2 ^ 32
  pub not_late : above s.utc_ns ≤ 2 ^ 62
  pub not_early : below s.utc_ns ≤ 2 ^ 62

i64_ok : (x : ℤ) → above x < 2 ^ 63 → below x ≤ 2 ^ 63 → i64 x ≡ ok x
unfolding i64
i64_ok x h k = ground arith

-- What a distance of `d` samples comes to in nanoseconds.
module _ (s : TimeSyncPoint) (v : IsSync s) (d : ℕ) (soon : d / s.sample_rate_hz ≤ 2 ^ 32) where
  abbrev seconds : ℕ
  seconds = d / s.sample_rate_hz * 1_000_000_000

  abbrev scaled : ℕ
  scaled = d % s.sample_rate_hz * 1_000_000_000

  abbrev rest : ℕ
  rest = scaled / s.sample_rate_hz

  scaled_fits : scaled < 2 ^ 63
  scaled_fits = omega (arith, mod-lt d v.rate_set, v.rate_fits)

  rest_small : rest < 1_000_000_000
  rest_small =
      (div-lt_iff_lt-mul {k = s.sample_rate_hz} {x = scaled} {y = 1_000_000_000} v.rate_set).1
        (omega (arith, mod-lt d v.rate_set))

  extrapolate_forward :
      d < 2 ^ 63
      → s.sample_counter + d < 2 ^ 64
      → extrapolate s (s.sample_counter + d)
        ≡ ok (record {
          utc = s.utc_ns +ℤ pos (d * 1_000_000_000 / s.sample_rate_hz);
          uncertainty_ns = s.uncertainty_ns;
        })
  unfolding extrapolate
  extrapolate_forward small fits =
      let distance : (s.sample_counter + d + 2 ^ 64 - s.sample_counter) % 2 ^ 64 ≡ d =
        omega (arith, v.counter_fits) in
      let signed : to_i64 d ≡ pos d = ground arith in
      let first = +ℤ-le s.utc_ns (pos seconds) in
      let second = +ℤ-le (s.utc_ns +ℤ pos seconds) (pos rest) in
      rw
        (
          distance,
          signed,
          i64_ok (pos seconds) (omega arith) (omega arith),
          i64_ok (s.utc_ns +ℤ pos seconds) (omega (arith, v.not_late)) (omega (arith, v.not_early)),
          i64_ok (pos scaled) scaled_fits (omega arith),
          i64_ok (s.utc_ns +ℤ pos seconds +ℤ pos rest) (omega (arith, v.not_late, rest_small))
              (omega (arith, v.not_early)),
          +ℤ-pos s.utc_ns seconds rest,
          split_scaled d 1_000_000_000 s.sample_rate_hz v.rate_set,
        )
        refl

  extrapolate_backward :
      (sample_index : ℕ)
      → 1 ≤ d
      → d < 2 ^ 63
      → sample_index + d ≡ s.sample_counter
      → extrapolate s sample_index
        ≡ ok (record {
          utc = s.utc_ns +ℤ neg (d * 1_000_000_000 / s.sample_rate_hz);
          uncertainty_ns = s.uncertainty_ns;
        })
  unfolding extrapolate
  extrapolate_backward sample_index some_samples small behind =
      let distance : (sample_index + 2 ^ 64 - s.sample_counter) % 2 ^ 64 ≡ 2 ^ 64 - d =
        omega (arith, v.counter_fits) in
      let back : 2 ^ 64 - (2 ^ 64 - d) ≡ d = omega arith in
      let high : ltb (2 ^ 64 - d) (2 ^ 63) ≡ false = le→ltb (2 ^ 64 - d) (2 ^ 63) (omega arith) in
      let first = +ℤ-le s.utc_ns (neg seconds) in
      let second = +ℤ-le (s.utc_ns +ℤ neg seconds) (neg rest) in
      let of_seconds = neg_parts seconds in
      let of_scaled = neg_parts scaled in
      let of_rest = neg_parts rest in
      rw
        (
          distance,
          high,
          back,
          div_trunc-neg d s.sample_rate_hz,
          scale-neg (d / s.sample_rate_hz) 1_000_000_000,
          i64_ok (neg seconds) (omega arith) (omega arith),
          i64_ok (s.utc_ns +ℤ neg seconds) (omega (arith, v.not_late)) (omega (arith, v.not_early)),
          rem_trunc-neg d s.sample_rate_hz,
          scale-neg (d % s.sample_rate_hz) 1_000_000_000,
          i64_ok (neg scaled) (omega (arith, scaled_fits)) (omega (arith, scaled_fits)),
          div_trunc-neg scaled s.sample_rate_hz,
          i64_ok (s.utc_ns +ℤ neg seconds +ℤ neg rest) (omega (arith, v.not_late))
              (omega (arith, v.not_early, rest_small)),
          +ℤ-neg s.utc_ns seconds rest,
          split_scaled d 1_000_000_000 s.sample_rate_hz v.rate_set,
        )
        refl

labelled :
    (s : TimeSyncPoint)
    → IsSync s
    → (sample_index : ℕ) → too_far_behind s sample_index ≡ false
    → labelled_by (some s) sample_index s.configuration_generation
      ≡ (do estimate ← extrapolate s sample_index; ok (some estimate))
unfolding labelled_by too_far_behind extrapolate
labelled s v sample_index near =
    let set : (s.sample_rate_hz == 0) ≡ false = ground (arith, v.rate_set) in
    rw (v.trusted, set, ==_refl s.configuration_generation, near) refl

unlabelled :
    (s : TimeSyncPoint) (sample_index generation : ℕ)
    → too_far_behind s sample_index ≡ true
    → labelled_by (some s) sample_index generation ≡ ok none
unfolding labelled_by
unlabelled s sample_index generation far = ground arith

distance_behind :
    (s : TimeSyncPoint) (d sample_index : ℕ)
    → IsSync s
    → 1 ≤ d
    → sample_index + d ≡ s.sample_counter
    → too_far_behind s sample_index ≡ ltb (s.sample_rate_hz * 60) d
unfolding too_far_behind
distance_behind s d sample_index v some_samples behind =
    let limit : (s.sample_rate_hz * 60) % 2 ^ 64 ≡ s.sample_rate_hz * 60 =
      omega (arith, v.rate_fits) in
    let distance : s.sample_counter - sample_index ≡ d = omega arith in
    rw (lt→ltb sample_index s.sample_counter (omega arith), limit, distance) refl

-- A sample at or after the last sync point, at most 2^32 seconds later, is labelled with the sync
-- point's UTC plus the distance at the sync point's rate, rounded down to the nanosecond, and with
-- the sync point's uncertainty; the signed arithmetic does not overflow.
pub utc_forward :
    (tb : Timebase) (s : TimeSyncPoint) (now : ℤ) (d : ℕ)
    → IsSync s
    → d / s.sample_rate_hz ≤ 2 ^ 32
    → d < 2 ^ 63
    → s.sample_counter + d < 2 ^ 64
    → utc_for_sample (record_sync tb s now) (s.sample_counter + d) s.configuration_generation
      ≡ ok (
          some (record {
            utc = s.utc_ns +ℤ pos (d * 1_000_000_000 / s.sample_rate_hz);
            uncertainty_ns = s.uncertainty_ns;
          }))
unfolding utc_for_sample record_sync
utc_forward tb s now d v soon small fits =
    let near : too_far_behind s (s.sample_counter + d) ≡ false =
      unfold too_far_behind in ground arith in
    labelled s v (s.sample_counter + d) near ∙ rw (extrapolate_forward s v d soon small fits) refl

-- A sample at most 60 seconds before the last sync point is labelled with the sync point's UTC minus
-- the distance, rounded towards the sync point; one that is further behind gets no label.
pub utc_backward :
    (tb : Timebase) (s : TimeSyncPoint) (now : ℤ) (d sample_index : ℕ)
    → IsSync s
    → 1 ≤ d
    → sample_index + d ≡ s.sample_counter
    → utc_for_sample (record_sync tb s now) sample_index s.configuration_generation ≡ (
        if ltb (s.sample_rate_hz * 60) d
        then ok none
        else ok (
            some (record {
              utc = s.utc_ns +ℤ neg (d * 1_000_000_000 / s.sample_rate_hz);
              uncertainty_ns = s.uncertainty_ns;
            })))
unfolding utc_for_sample record_sync
utc_backward tb s now d sample_index v some_samples behind =
    elim (Bool-cases (ltb (s.sample_rate_hz * 60) d)) [
      | inl far ↦ rw far (unlabelled s sample_index s.configuration_generation (same ∙ far))
      | inr near ↦
          (let reach : d / s.sample_rate_hz ≤ 2 ^ 32 = omega (
            arith,
            (div-lt_iff_lt-mul {k = s.sample_rate_hz} {x = d} {y = 61} v.rate_set).1
                (ground (arith, v.rate_set)),
          ) in
            rw near (
              labelled s v sample_index (same ∙ near)
              ∙ rw
                  (extrapolate_backward s v d reach sample_index some_samples
                    (ground (arith, v.rate_fits)) behind)
                  refl))
    ]
  where
    same : too_far_behind s sample_index ≡ ltb (s.sample_rate_hz * 60) d
    same = distance_behind s d sample_index v some_samples behind

extrapolate_uncertainty :
    (s : TimeSyncPoint) (sample_index : ℕ) (estimate : UtcEstimate)
    → extrapolate s sample_index ≡ ok estimate
    → estimate.uncertainty_ns ≡ s.uncertainty_ns
unfolding extrapolate
extrapolate_uncertainty s sample_index estimate e = ground arith

sound_by :
    (sync : Option TimeSyncPoint) (sample_index generation : ℕ) (estimate : UtcEstimate)
    → labelled_by sync sample_index generation ≡ ok (some estimate)
    → (s : TimeSyncPoint) × (sync ≡ some s)
      × (s.utc_synchronized ≡ true)
      × (1 ≤ s.sample_rate_hz)
      × (generation ≡ s.configuration_generation)
      × (estimate.uncertainty_ns ≡ s.uncertainty_ns)
unfolding labelled_by
sound_by none sample_index generation estimate e = cc
sound_by (some s) sample_index generation estimate e = (
  s,
  refl,
  ground arith,
  ground arith,
  ground arith,
  ground (arith, extrapolate_uncertainty s sample_index estimate),
)

quality_trusted :
    (tb : Timebase) (now : ℤ) (s : TimeSyncPoint)
    → s.utc_synchronized ≡ true
    → quality_of tb now (some s) ≢ unsynchronized
unfolding quality_of
quality_trusted tb now s e = ground arith

-- A sample is only labelled under the configuration of the last sync point, when that one was taken
-- from a synchronized clock, and with its uncertainty; the timebase is then not unsynchronized.
pub utc_sound :
    (tb : Timebase) (now : ℤ) (sample_index generation : ℕ) (estimate : UtcEstimate)
    → utc_for_sample tb sample_index generation ≡ ok (some estimate)
    → (quality tb now ≢ unsynchronized)
      × ((s : TimeSyncPoint) × (tb.latest_sync ≡ some s)
          × (s.utc_synchronized ≡ true)
          × (1 ≤ s.sample_rate_hz)
          × (generation ≡ s.configuration_generation)
          × (estimate.uncertainty_ns ≡ s.uncertainty_ns))
unfolding utc_for_sample quality quality_of
utc_sound tb now sample_index generation estimate e =
    let (s, last, trusted, set, same, bound) =
      sound_by tb.latest_sync sample_index generation estimate e in
    (rw last (quality_trusted tb now s trusted), (s, last, trusted, set, same, bound))
