-- ===== src/Modbus/Rtu/Assembly.antt =====
-- The loop of the frame assembler: it ends, and it goes on with more bytes where it has stopped.
use msap1_apu.Prelude.{
  ℕ, zero, suc, ◌≤◌, ◌<◌, ◌≡◌, ◌≢◌, refl, sym, ap, ◌∙◌, ◌≡⟨◌⟩◌, ◌∎, List, [], ◌∷◌, ◌++◌, some, inl,
  inr, arith, length, take, drop, none, lt→ltb, ◌⊎◌, length-drop, length-append, get_or-append,
  take-append_le, drop-append_le, Option-cases, Bool-cases, ltb, le→ltb, append_assoc, append-nil,
}
use msap1_apu.Modbus.Rtu.{
  Pushed, ready, length_error, unfinished, frame_size, push_loop, push, maximum_rtu_frame_size,
}

frame_size_pos : (buffer : List ℕ) (n : ℕ) → frame_size buffer ≡ some n → 8 ≤ n
unfolding frame_size
frame_size_pos [] n e = cc
frame_size_pos (u ∷ []) n e = cc
frame_size_pos (u ∷ f ∷ bytes) n e = ground arith

-- More bytes do not change the size that a buffer announces.
frame_size-append :
    (buffer more : List ℕ) (n : ℕ)
    → frame_size buffer ≡ some n
    → frame_size (buffer ++ more) ≡ some n
unfolding frame_size
frame_size-append [] more n e = cc
frame_size-append (u ∷ []) more n e = cc
frame_size-append (u ∷ f ∷ bytes) more n e =
    ground (arith, get_or-append bytes more 4 0, length-append bytes more)

-- With fuel beyond the buffer's length the loop ends.
push_loop-ne-unfinished :
    (fuel : ℕ) (buffer : List ℕ) (frames : List (List ℕ))
    → length buffer < fuel
    → push_loop fuel buffer frames ≢ unfinished
unfolding push_loop
push_loop-ne-unfinished zero buffer frames h = absurd (omega arith)
push_loop-ne-unfinished (suc fuel) buffer frames h = elim (Option-cases (frame_size buffer)) [
  | inl e ↦ rw (e, push_loop) (ground arith)
  | inr (n, e) ↦
      rw (e, push_loop)
        (ground (
          arith,
          frame_size_pos buffer n e,
          length-drop n buffer,
          push_loop-ne-unfinished fuel (drop n buffer) (frames ++ (take n buffer ∷ [])),
        ))
]

-- The result does not depend on the fuel, once it is enough.
push_loop_fuel :
    (fuel more : ℕ) (buffer : List ℕ) (frames : List (List ℕ))
    → length buffer < fuel
    → length buffer < more
    → push_loop fuel buffer frames ≡ push_loop more buffer frames
unfolding push_loop
push_loop_fuel zero more buffer frames h k = absurd (omega arith)
push_loop_fuel (suc fuel) zero buffer frames h k = absurd (omega arith)
push_loop_fuel (suc fuel) (suc more) buffer frames h k = elim (Option-cases (frame_size buffer)) [
  | inl e ↦ rw (e, push_loop)
  | inr (n, e) ↦
      rw (e, push_loop)
        (ground (
          arith,
          frame_size_pos buffer n e,
          length-drop n buffer,
          push_loop_fuel fuel more (drop n buffer) (frames ++ (take n buffer ∷ [])),
        ))
]

frame_size-append-none :
    (buffer more : List ℕ)
    → maximum_rtu_frame_size < length buffer
    → frame_size buffer ≡ none
    → frame_size (buffer ++ more) ≡ none
unfolding frame_size
frame_size-append-none [] more long e = absurd (omega arith)
frame_size-append-none (u ∷ []) more long e = absurd (omega arith)
frame_size-append-none (u ∷ f ∷ bytes) more long e = ground (arith, length-append bytes more)

-- A buffer that is refused: its frame, or what may become one, is too long.
Overlong : List ℕ → Type 0
Overlong buffer =
    ((frame_size buffer ≡ none) × (maximum_rtu_frame_size < length buffer))
    ⊎ ((n : ℕ) × (frame_size buffer ≡ some n) × (maximum_rtu_frame_size < n))

Overlong-append : (buffer more : List ℕ) → Overlong buffer → Overlong (buffer ++ more)
unfolding Overlong
Overlong-append buffer more (inl (e, long)) =
    inl (frame_size-append-none buffer more long e, omega (arith, length-append buffer more))
Overlong-append buffer more (inr (n, e, long)) = inr (n, frame_size-append buffer more n e, long)

push_loop-Overlong :
    (fuel : ℕ) (buffer : List ℕ) (frames : List (List ℕ))
    → Overlong buffer
    → push_loop (suc fuel) buffer frames ≡ length_error
unfolding push_loop Overlong
push_loop-Overlong fuel buffer frames (inl (e, long)) =
    rw (e, push_loop, lt→ltb maximum_rtu_frame_size (length buffer) long)
push_loop-Overlong fuel buffer frames (inr (n, e, long)) =
    rw (e, push_loop, lt→ltb maximum_rtu_frame_size n long)

-- One round of the loop, case by case.
data Round (buffer : List ℕ) : Type 0 where
  waits :
      ((fuel : ℕ) (frames : List (List ℕ))
        → push_loop (suc fuel) buffer frames ≡ ready frames buffer)
      → Round buffer
  fails : Overlong buffer → Round buffer
  takes :
      (n : ℕ)
      → frame_size buffer ≡ some n
      → n ≤ maximum_rtu_frame_size
      → n ≤ length buffer
      → Round buffer

pub push_loop-takes :
    (fuel : ℕ) (buffer : List ℕ) (frames : List (List ℕ)) (n : ℕ)
    → frame_size buffer ≡ some n
    → n ≤ maximum_rtu_frame_size
    → n ≤ length buffer
    → push_loop (suc fuel) buffer frames
      ≡ push_loop fuel (drop n buffer) (frames ++ (take n buffer ∷ []))
unfolding push_loop
push_loop-takes fuel buffer frames n e small there =
    rw (e, push_loop, le→ltb maximum_rtu_frame_size n small, le→ltb (length buffer) n there)

rounds : (buffer : List ℕ) → Round buffer
unfolding push_loop Overlong
rounds buffer = elim (Option-cases (frame_size buffer)) [
  | inl e ↦ elim (Bool-cases (ltb maximum_rtu_frame_size (length buffer))) [
    | inl t ↦ fails (inl (e, ground arith))
    | inr f ↦ waits (λ fuel frames. rw (e, f, push_loop))
  ]
  | inr (n, e) ↦ elim (Bool-cases (ltb maximum_rtu_frame_size n)) [
    | inl t ↦ fails (inr (n, e, ground arith))
    | inr f ↦ elim (Bool-cases (ltb (length buffer) n)) [
      | inl t ↦ waits (λ fuel frames. rw (e, f, t, push_loop))
      | inr g ↦ takes n e (ground arith) (ground arith)
    ]
  ]
]

abbrev pub prepend : List (List ℕ) → Pushed → Pushed
prepend frames (ready more rest) = ready (frames ++ more) rest
prepend frames length_error = length_error
prepend frames unfinished = unfinished

-- The frames found so far stand in front of the rest.
push_loop-prepend :
    (fuel : ℕ) (buffer : List ℕ) (front frames : List (List ℕ))
    → push_loop fuel buffer (front ++ frames) ≡ prepend front (push_loop fuel buffer frames)
unfolding push_loop
push_loop-prepend zero buffer front frames = refl
push_loop-prepend (suc fuel) buffer front frames = elim (rounds buffer) [
  | waits e ↦ e fuel (front ++ frames) ∙ sym (ap (prepend front) (e fuel frames))
  | fails e ↦
      push_loop-Overlong fuel buffer (front ++ frames) e
      ∙ sym (ap (prepend front) (push_loop-Overlong fuel buffer frames e))
  | takes n e small there ↦
      push_loop-takes fuel buffer (front ++ frames) n e small there
      ∙ ap (push_loop fuel (drop n buffer)) (append_assoc front frames (take n buffer ∷ []))
      ∙ push_loop-prepend fuel (drop n buffer) front (frames ++ (take n buffer ∷ []))
      ∙ sym (ap (prepend front) (push_loop-takes fuel buffer frames n e small there))
]

rest_of :
    {frames done : List (List ℕ)} {buffer rest : List ℕ}
    → ready frames buffer ≡ ready done rest
    → buffer ≡ rest
rest_of e = cc

done_of :
    {frames done : List (List ℕ)} {buffer rest : List ℕ}
    → ready frames buffer ≡ ready done rest
    → frames ≡ done
done_of e = cc

-- What stays in the buffer is no longer than what was there.
push_loop_rest :
    (fuel : ℕ) (buffer : List ℕ) (frames done : List (List ℕ)) (rest : List ℕ)
    → push_loop fuel buffer frames ≡ ready done rest
    → length rest ≤ length buffer
unfolding push_loop
push_loop_rest zero buffer frames done rest e = cc
push_loop_rest (suc fuel) buffer frames done rest e = elim (rounds buffer) [
  | waits w ↦ (let same = rest_of (sym (w fuel frames) ∙ e) in rw same (omega arith))
  | fails w ↦ cc (push_loop-Overlong fuel buffer frames w)
  | takes n s small there ↦
      (let less =
          push_loop_rest fuel (drop n buffer) (frames ++ (take n buffer ∷ [])) done rest
            (sym (push_loop-takes fuel buffer frames n s small there) ∙ e) in
        ground (arith, length-drop n buffer))
]

-- A loop that has stopped for want of bytes goes on from there when more bytes arrive.
push_loop_resume :
    (fuel enough : ℕ) (buffer more : List ℕ) (frames done : List (List ℕ)) (rest : List ℕ)
    → push_loop fuel buffer frames ≡ ready done rest
    → length (buffer ++ more) < enough
    → push_loop enough (buffer ++ more) frames ≡ push_loop enough (rest ++ more) done
unfolding push_loop
push_loop_resume zero enough buffer more frames done rest e h = cc
push_loop_resume (suc fuel) zero buffer more frames done rest e h = absurd (omega arith)
push_loop_resume (suc fuel) (suc enough) buffer more frames done rest e h = elim (rounds buffer) [
  | waits w ↦
      (let same = rest_of (sym (w fuel frames) ∙ e) in
        let found = done_of (sym (w fuel frames) ∙ e) in
        ap (λ b. push_loop (suc enough) (b ++ more) frames) same
        ∙ ap (push_loop (suc enough) (rest ++ more)) found)
  | fails w ↦ cc (push_loop-Overlong fuel buffer frames w)
  | takes n s small there ↦
      (let left = drop n buffer in
        let found = frames ++ (take n buffer ∷ []) in
        let runs = sym (push_loop-takes fuel buffer frames n s small there) ∙ e in
        let shorter = push_loop_rest fuel left found done rest runs in
        let here = length-append buffer more in
        let after = length-append rest more in
        push_loop (suc enough) (buffer ++ more) frames
        ≡⟨ push_loop-takes enough (buffer ++ more) frames n (frame_size-append buffer more n s)
            small (omega arith) ⟩
          push_loop enough (drop n (buffer ++ more)) (frames ++ (take n (buffer ++ more) ∷ []))
        ≡⟨ ap (push_loop enough (drop n (buffer ++ more)))
            (ap (λ f. frames ++ (f ∷ [])) (take-append_le n buffer more there)) ⟩
          push_loop enough (drop n (buffer ++ more)) found
        ≡⟨ ap (λ b. push_loop enough b found) (drop-append_le n buffer more there) ⟩
          push_loop enough (left ++ more) found
        ≡⟨ push_loop_resume fuel enough left more found done rest runs (
            ground
              (arith, length-append left more, length-drop n buffer, frame_size_pos buffer n s)) ⟩
          push_loop enough (rest ++ more) done
        ≡⟨ push_loop_fuel enough (suc enough) (rest ++ more) done
            (ground (arith, length-drop n buffer, frame_size_pos buffer n s))
            (ground (arith, length-drop n buffer, frame_size_pos buffer n s)) ⟩
          push_loop (suc enough) (rest ++ more) done ∎)
]

-- A loop that throws throws with more bytes as well.
push_loop_throws :
    (fuel enough : ℕ) (buffer more : List ℕ) (frames : List (List ℕ))
    → push_loop fuel buffer frames ≡ length_error
    → length (buffer ++ more) < enough
    → push_loop enough (buffer ++ more) frames ≡ length_error
unfolding push_loop
push_loop_throws zero enough buffer more frames e h = cc
push_loop_throws (suc fuel) zero buffer more frames e h = absurd (omega arith)
push_loop_throws (suc fuel) (suc enough) buffer more frames e h = elim (rounds buffer) [
  | waits w ↦ cc (w fuel frames)
  | fails w ↦ push_loop-Overlong enough (buffer ++ more) frames (Overlong-append buffer more w)
  | takes n s small there ↦
      push_loop-takes enough (buffer ++ more) frames n (frame_size-append buffer more n s) small
        (omega (arith, length-append buffer more))
      ∙ ap (push_loop enough (drop n (buffer ++ more)))
          (ap (λ f. frames ++ (f ∷ [])) (take-append_le n buffer more there))
      ∙ ap (λ b. push_loop enough b (frames ++ (take n buffer ∷ [])))
          (drop-append_le n buffer more there)
      ∙ push_loop_throws fuel enough (drop n buffer) more (frames ++ (take n buffer ∷ []))
          (sym (push_loop-takes fuel buffer frames n s small there) ∙ e)
          (ground (
            arith,
            length-append buffer more,
            length-append (drop n buffer) more,
            length-drop n buffer,
            frame_size_pos buffer n s,
          ))
]

-- `push` always returns or throws: the loop never runs out of fuel.
pub push-ne-unfinished : (buffer bytes : List ℕ) → push buffer bytes ≢ unfinished
unfolding push
push-ne-unfinished buffer bytes =
    push_loop-ne-unfinished (suc (length (buffer ++ bytes))) (buffer ++ bytes) [] (omega arith)

-- Two reads, of which the first is not refused, against one: an exception of the second is one of the
-- whole, and the frames of the first are then lost with it.
pub push-append :
    (buffer x y : List ℕ) (frames : List (List ℕ)) (rest : List ℕ)
    → push buffer x ≡ ready frames rest
    → push buffer (x ++ y) ≡ prepend frames (push rest y)
unfolding push
push-append buffer x y frames rest e =
    push_loop (suc (length (buffer ++ (x ++ y)))) (buffer ++ (x ++ y)) []
    ≡⟨ ap (λ b. push_loop (suc (length b)) b []) (sym (append_assoc buffer x y)) ⟩
      push_loop (suc (length ((buffer ++ x) ++ y))) ((buffer ++ x) ++ y) []
    ≡⟨ push_loop_resume (suc (length (buffer ++ x))) (suc (length ((buffer ++ x) ++ y)))
        (buffer ++ x) y [] frames rest e (omega arith) ⟩
      push_loop (suc (length ((buffer ++ x) ++ y))) (rest ++ y) frames
    ≡⟨ push_loop_fuel (suc (length ((buffer ++ x) ++ y))) (suc (length (rest ++ y))) (rest ++ y)
        frames
        (ground (
          arith,
          length-append (buffer ++ x) y,
          length-append rest y,
          push_loop_rest (suc (length (buffer ++ x))) (buffer ++ x) [] frames rest e,
        ))
        (omega arith) ⟩
      push_loop (suc (length (rest ++ y))) (rest ++ y) frames
    ≡⟨ ap (push_loop (suc (length (rest ++ y))) (rest ++ y)) (sym (append-nil frames)) ⟩
      push_loop (suc (length (rest ++ y))) (rest ++ y) (frames ++ [])
    ≡⟨ push_loop-prepend (suc (length (rest ++ y))) (rest ++ y) frames [] ⟩
      prepend frames (push_loop (suc (length (rest ++ y))) (rest ++ y) []) ∎

pub push-append-throws :
    (buffer x y : List ℕ) → push buffer x ≡ length_error → push buffer (x ++ y) ≡ length_error
unfolding push
push-append-throws buffer x y e =
    ap (λ b. push_loop (suc (length b)) b []) (sym (append_assoc buffer x y))
    ∙ push_loop_throws (suc (length (buffer ++ x))) (suc (length ((buffer ++ x) ++ y)))
        (buffer ++ x) y [] e (omega arith)
