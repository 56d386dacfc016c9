-- ===== src/Recorder/Frames.antt =====
-- writeFrames: the count, and the run of failures that ends a recording.
use plugin_vm.Base.{
  ◌≡◌, refl, inl, inr, ℕ, zero, suc, ◌+◌, ◌/◌, All, ◌≤◌, ◌<◌, Bool, true, false, Option, none, some,
  List, [], ◌∷◌, ◌++◌, String, leb, ltb, length, arith, Bool-cases,
}
use plugin_vm.Base.Int.{ℤ, pos, negsuc}
use plugin_vm.Base.Text.{Text}
use plugin_vm.Recorder.{
  RecorderError, failed, no_image, encoded, Event, done, tick, interval_of, capture_interval,
  fail_limit, Recording, waiting, stopped, after_failure, after_write, write_frames,
}

division_bound : (n : ℕ) → 1000000000 / suc n ≤ 1000000000
division_bound n = omega arith

interval_of-bounds : (n : ℕ) → (10000000 ≤ interval_of (suc n)) × (interval_of (suc n) ≤ 1000000000)
unfolding interval_of
interval_of-bounds n = elim (Bool-cases (ltb (1000000000 / suc n) 10000000)) [
  | inl e ↦ rw e (omega arith, omega arith)
  | inr e ↦ rw e (ground arith, division_bound n)
]

-- A poll interval is never below 10 ms, nor above a second.
pub capture_interval-bounds :
    (fps : ℤ) → (10000000 ≤ capture_interval fps) × (capture_interval fps ≤ 1000000000)
unfolding capture_interval
capture_interval-bounds (pos zero) = interval_of-bounds 4
capture_interval-bounds (pos (suc n)) = interval_of-bounds n
capture_interval-bounds (negsuc n) = interval_of-bounds 4

abbrev pub count_of : Recording → ℕ
count_of (waiting n) = n
count_of (stopped n e) = n

abbrev pub kept : Bool → Text → List Text → List Text × Option String
kept true frame frames = (frame ∷ frames, none)
kept false frame frames = (frames, some "write failed")

-- An output that keeps its frames, the last first, and refuses a frame as `accepts` says.
abbrev pub keep : (Text → List Text → Bool) → Text → List Text → List Text × Option String
keep accepts frame frames = kept (accepts frame frames) frame frames

wrote-count :
    (accepts : Text → List Text → Bool) (frame : Text) (frames : List Text)
    (more : List Text → List Text × Recording) (accepted : Bool)
    → count_of ((more (frame ∷ frames)).1) ≡ length ((more (frame ∷ frames)).0)
    → count_of (
        (after_write
          (keep accepts)
          (length frames)
          (kept accepted frame frames)
          (more (kept accepted frame frames).0)).1)
      ≡ length (
          (after_write
            (keep accepts)
            (length frames)
            (kept accepted frame frames)
            (more (kept accepted frame frames).0)).0)
unfolding after_write
wrote-count accepts frame frames more true h = h
wrote-count accepts frame frames more false h = refl

-- The count is the number of frames in the output, at each moment and however the recording ends.
pub write_frames-count :
    (accepts : Text → List Text → Bool) (fails : ℕ) (events : List Event) (frames : List Text)
    → count_of ((write_frames (keep accepts) (length frames) fails events frames).1)
      ≡ length ((write_frames (keep accepts) (length frames) fails events frames).0)
unfolding write_frames after_failure
write_frames-count accepts fails [] frames = refl
write_frames-count accepts fails (done ∷ events) frames = refl
write_frames-count accepts fails (tick (failed e) ∷ events) frames =
    elim (Bool-cases (leb fail_limit (suc fails))) [
      | inl b ↦ rw b
      | inr b ↦ rw b (write_frames-count accepts (suc fails) events frames)
    ]
write_frames-count accepts fails (tick no_image ∷ events) frames =
    elim (Bool-cases (leb fail_limit (suc fails))) [
      | inl b ↦ rw b
      | inr b ↦ rw b (write_frames-count accepts (suc fails) events frames)
    ]
write_frames-count accepts fails (tick (encoded []) ∷ events) frames =
    write_frames-count accepts 0 events frames
write_frames-count accepts fails (tick (encoded (b ∷ bytes)) ∷ events) frames =
    wrote-count accepts (b ∷ bytes) frames
      (write_frames (keep accepts) (suc (length frames)) 0 events) (accepts (b ∷ bytes) frames)
      (write_frames-count accepts 0 events ((b ∷ bytes) ∷ frames))

-- A poll that shows nothing.
pub data Fails : Event → Type 0 where
  by_error : {e : String} → Fails (tick (failed e))
  by_image : Fails (tick no_image)

-- What a run of polls that show nothing comes to: it ends the recording with an error.
abbrev pub GivesUp : {W : Type 0} → W → ℕ → W × Recording → Type 0
GivesUp w count r = (error : RecorderError) × (r ≡ (w, stopped count (some error)))

module _ {W : Type 0} (write : Text → W → W × Option String) where
  GivesUp-or_on :
      (count fails : ℕ) (error : RecorderError) (w : W) (more : W × Recording)
      → fails < fail_limit
      → (suc fails < fail_limit → GivesUp w count more)
      → GivesUp w count (after_failure write count fails error w more)
  unfolding after_failure
  GivesUp-or_on count fails error w more below go_on =
      elim (Bool-cases (leb fail_limit (suc fails))) [
        | inl b ↦ (error, rw b)
        | inr b ↦ rw b (go_on (ground arith))
      ]

  -- Polls that show nothing end the recording with an error once five of them follow one another,
  -- those before the given ones included, whatever comes after: nothing more is written.
  pub write_frames-GivesUp :
      (count fails : ℕ) (run rest : List Event) (w : W)
      → All Fails run
      → fails < fail_limit
      → fail_limit ≤ fails + length run
      → GivesUp w count (write_frames write count fails (run ++ rest) w)
  unfolding write_frames
  write_frames-GivesUp count fails [] rest w all below enough = absurd (omega arith)
  write_frames-GivesUp count fails (done ∷ run) rest w (bad, all) below enough = elim bad [ ]
  write_frames-GivesUp count fails (tick (encoded x) ∷ run) rest w (bad, all) below enough =
      elim bad [ ]
  write_frames-GivesUp count fails (tick (failed e) ∷ run) rest w (by_error, all) below enough =
      GivesUp-or_on count fails _ w _ below
        (λ next. write_frames-GivesUp count (suc fails) run rest w all next (omega arith))
  write_frames-GivesUp count fails (tick no_image ∷ run) rest w (by_image, all) below enough =
      GivesUp-or_on count fails _ w _ below
        (λ next. write_frames-GivesUp count (suc fails) run rest w all next (omega arith))
