-- ===== src/Tests/Recording.antt =====
-- A session of one frame and then five polls that show nothing.
use plugin_vm.Base.{◌≡◌, Bool, true, List, [], ◌∷◌, ◌++◌, length, arith}
use plugin_vm.Base.Text.{Text}
use plugin_vm.Recorder.{Event, done, tick, failed, no_image, encoded, write_frames}
use plugin_vm.Recorder.Frames.{
  by_error, by_image, GivesUp, count_of, keep, write_frames-count, write_frames-GivesUp,
}

-- Every frame is taken.
abbrev accepts : Text → List Text → Bool
accepts frame frames = true

abbrev silence : List Event
silence =
    tick (failed "wedged")
    ∷ tick no_image
    ∷ tick no_image
    ∷ tick (failed "wedged")
    ∷ tick no_image
    ∷ []

abbrev session : List Event
session = tick (encoded (255 ∷ [])) ∷ silence

write_frames-count_example :
    count_of ((write_frames (keep accepts) 0 0 session []).1)
    ≡ length ((write_frames (keep accepts) 0 0 session []).0)
write_frames-count_example = write_frames-count accepts 0 session []

write_frames-GivesUp_example :
    GivesUp [] 3 (write_frames (keep accepts) 3 0 (silence ++ (done ∷ [])) [])
write_frames-GivesUp_example =
    write_frames-GivesUp (keep accepts) 3 0 silence (done ∷ []) []
      (by_error, (by_image, (by_image, (by_error, (by_image, tt))))) (omega arith) (omega arith)
