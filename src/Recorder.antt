-- ===== src/Recorder.antt =====
-- candy/plugin-vm/recorder.go: the loop that polls the display of a session into a file of frames.
-- The loop is driven by the events that its `select` receives. A poll is the error or the image of
-- the screenshot, and a write the error of the output, if any; `W` is the state of the output.
pub mod Frames
use plugin_vm.Base.{
  ℕ, zero, suc, ◌+◌, ◌/◌, Bool, true, false, Option, none, some, List, [], ◌∷◌, String,
  if◌then◌else◌, leb, ltb,
}
use plugin_vm.Base.Int.{ℤ, pos, negsuc}
use plugin_vm.Base.Text.{Text}

pub data RecorderError : Type 0 where
  screenshot_failed : String → RecorderError
  empty_frames : ℕ → RecorderError
  writer_failed : String → RecorderError

-- A screenshot that fails, one without an image, or the bytes that the encoder makes of the image,
-- none where it rejects the frame.
pub data Poll : Type 0 where
  failed : String → Poll
  no_image : Poll
  encoded : Text → Poll

pub data Event : Type 0 where
  done : Event
  tick : Poll → Event

-- In nanoseconds: 5 frames a second by default, 100 at most.
unfoldable pub interval_of : ℕ → ℕ
interval_of fps = let d = 1000000000 / fps in if ltb d 10000000 then 10000000 else d

unfoldable pub capture_interval : ℤ → ℕ
unfolding interval_of
capture_interval (pos zero) = interval_of 5
capture_interval (pos (suc n)) = interval_of (suc n)
capture_interval (negsuc n) = interval_of 5

-- recorderConsecutiveFailLimit
abbrev pub fail_limit : ℕ
fail_limit = 5

-- A loop that is still waiting, or the count of frames beside an error.
pub data Recording : Type 0 where
  waiting : ℕ → Recording
  stopped : ℕ → Option RecorderError → Recording

module _ {W : Type 0} (write : Text → W → W × Option String) where
  -- What follows a poll that has failed, where its error ends the recording.
  unfoldable pub after_failure : ℕ → ℕ → RecorderError → W → W × Recording → W × Recording
  after_failure count fails error w go_on =
      if leb fail_limit (suc fails) then (w, stopped count (some error)) else go_on

  unfoldable pub after_write : ℕ → W × Option String → W × Recording → W × Recording
  after_write count (w, none) more = more
  after_write count (w, some e) more = (w, stopped count (some (writer_failed e)))

  unfoldable pub write_frames : ℕ → ℕ → List Event → W → W × Recording
  unfolding after_failure after_write
  write_frames count fails [] w = (w, waiting count)
  write_frames count fails (done ∷ events) w = (w, stopped count none)
  write_frames count fails (tick (failed e) ∷ events) w =
      after_failure count fails (screenshot_failed e) w (write_frames count (suc fails) events w)
  write_frames count fails (tick no_image ∷ events) w =
      after_failure count fails (empty_frames (suc fails)) w
        (write_frames count (suc fails) events w)
  write_frames count fails (tick (encoded []) ∷ events) w = write_frames count 0 events w
  write_frames count fails (tick (encoded (b ∷ bytes)) ∷ events) w =
      after_write count (write (b ∷ bytes) w)
        (write_frames (suc count) 0 events (write (b ∷ bytes) w).0)
