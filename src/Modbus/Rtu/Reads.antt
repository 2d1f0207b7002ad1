-- ===== src/Modbus/Rtu/Reads.antt =====
-- common/mnc/modbus/rtu_server.cpp: the reads of a port's `run`, however the bytes are cut into them.
use msap1_apu.Prelude.{
  ℕ, ◌≡◌, ◌≢◌, refl, sym, ap, subst, true, false, List, [], ◌∷◌, ◌++◌, append-nil,
}
use msap1_apu.Modbus.Rtu.{
  Pushed, ready, length_error, unfinished, push, Received, pushed_read, followed_by, read_loop,
}
use msap1_apu.Modbus.Rtu.Assembly.{prepend, push-append, push-append-throws, push-ne-unfinished}
use msap1_apu.Modbus.Rtu.Frames.{concat}

-- What the reads give, against one read of the same bytes: where that throws an exception, one of
-- the reads throws, and the frames are not compared.
abbrev pub Agrees : Pushed → Received → Type 0
Agrees (ready frames rest) received = received ≡ (frames, (false, rest))
Agrees length_error received = received.1.0 ≡ true
Agrees unfinished received = ⊥

-- The frames of a first read stand in front.
prepend-Agrees :
    (frames : List (List ℕ)) (rest : List ℕ) (p : Pushed) (later : Received)
    → Agrees p later
    → Agrees (prepend frames p) (followed_by (frames, (false, rest)) later)
prepend-Agrees frames rest (ready more last) later e = ap (followed_by (frames, (false, rest))) e
prepend-Agrees frames rest length_error later e = e
prepend-Agrees frames rest unfinished later e = e

one_read :
    (p : Pushed)
    → p ≢ unfinished
    → Agrees p (followed_by (pushed_read p) ([], (false, (pushed_read p).1.1)))
unfolding pushed_read
one_read (ready frames rest) ends = ap (λ f. (f, (false, rest))) (append-nil frames)
one_read length_error ends = refl
one_read unfinished ends = absurd (ends refl)

after_read :
    (buffer input more : List ℕ) (inputs : List (List ℕ)) (p : Pushed)
    → push buffer input ≡ p
    → ((rest : List ℕ) → Agrees (push rest more) (read_loop rest inputs))
    → Agrees
        (push buffer (input ++ more))
        (followed_by (pushed_read p) (read_loop (pushed_read p).1.1 inputs))
unfolding pushed_read
after_read buffer input more inputs (ready frames rest) e later =
    subst (λ p. Agrees p (followed_by (frames, (false, rest)) (read_loop rest inputs)))
      (sym (push-append buffer input more frames rest e))
      (prepend-Agrees frames rest (push rest more) (read_loop rest inputs) (later rest))
after_read buffer input more inputs length_error e later =
    subst (λ p. Agrees p (followed_by ([], (true, [])) (read_loop [] inputs)))
      (sym (push-append-throws buffer input more e)) refl
after_read buffer input more inputs unfinished e later = absurd (push-ne-unfinished buffer input e)

-- The frames do not depend on how the bytes are cut into reads, as long as the reads together hold
-- nothing that is too long: where one read of all the bytes throws no exception, the reads throw
-- none, and give the same frames in the same order and the same buffer. Where the one read throws an
-- exception, one of the reads does as well.
pub read_loop-Agrees :
    (buffer input : List ℕ) (inputs : List (List ℕ))
    → Agrees (push buffer (input ++ concat inputs)) (read_loop buffer (input ∷ inputs))
unfolding read_loop
read_loop-Agrees buffer input [] =
    subst
      (λ bytes. Agrees (push buffer bytes) (
        followed_by (pushed_read (push buffer input))
          ([], (false, (pushed_read (push buffer input)).1.1))))
      (sym (append-nil input)) (one_read (push buffer input) (push-ne-unfinished buffer input))
read_loop-Agrees buffer input (next ∷ inputs) =
    after_read buffer input (next ++ concat inputs) (next ∷ inputs) (push buffer input) refl
      (λ rest. read_loop-Agrees rest next inputs)
