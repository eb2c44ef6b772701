-- ===== src/Tests/Interleaving.antt =====
-- Tests of the two threads of a device program.
use openstint.Base.{[], refl, some, true, ℕ, ◌>>=◌, ◌≡◌}
use openstint.Transponder.{rc3}
use openstint.Statistics.{new_statistics, register_frame, reset}
use openstint.Receiver.{reporting_timestamp}
use openstint.Receiver.Frames.{Station}
use openstint.Receiver.Frames.Sound.{new_station-IsReady, detect_frames-Counted}
use openstint.Receiver.Report.{Reporter, report_detections}
use openstint.Receiver.Decoder.{reporter_of}
use openstint.Receiver.Threads.Callback.{arrive}
use openstint.Receiver.Threads.MainLoop.{sleeping, Now, deciding, clearing, syncing, report_step}
use openstint.Receiver.Threads.World.{World, new_world, stepped, polled}
use openstint.Receiver.Threads.Resync.{report_alone}
use openstint.Receiver.Threads.Alone.{report_alone-report_detections}
use openstint.Receiver.Threads.Buffer.{Runs, detect_frames-Runs}
use openstint.Tests.{whole, keep, rate, echo, frame_of}
use openstint.Tests.Buffers.{plain, idle_station, quiet}

abbrev early : Now
early = record { now_sysclk = 100; now_ts = 10; entries = [] }

abbrev W : Type 0
W = World whole plain keep rate echo

-- A buffer comes, the main loop wakes up, and its first step decides that no status is due.
abbrev asleep : W
asleep = new_world whole plain keep rate echo [] (frame_of rc3 []) early

abbrev busy : W
busy =
    stepped whole plain keep rate echo asleep
      (arrive whole plain keep rate echo 10 quiet asleep.decoder.station)

abbrev awake : W
awake = record busy { point = deciding; now = early }

abbrev decided : W
decided =
    polled whole plain keep rate echo awake
      (syncing, [], reporter_of whole plain keep rate echo awake.decoder)

abbrev later : Now
later = record { now_sysclk = 6000100; now_ts = 6000010; entries = [] }

report_alone-report_detections_example :
    (n : ℕ) × (report_alone whole plain keep rate echo true later n deciding
        (reporter_of whole plain keep rate echo asleep.decoder)
      ≡ (report_detections whole plain keep rate echo true 6000100 6000010 []
            (reporter_of whole plain keep rate echo asleep.decoder)
          >>= λ p. some (sleeping, p.0, p.1)))
report_alone-report_detections_example =
    report_alone-report_detections whole plain keep rate echo true later
      (reporter_of whole plain keep rate echo asleep.decoder)

quiet_end :
    (end : Station whole plain keep rate echo) × (openstint.Receiver.Frames.detect_frames whole
        plain keep rate echo 10 quiet idle_station
      ≡ some end)
quiet_end =
    let answer =
      detect_frames-Counted whole plain keep rate echo 10 quiet idle_station
        (new_station-IsReady whole plain keep rate echo (frame_of rc3 [])) in
    (answer.0, answer.1)

detect_frames-Runs_example :
    Runs whole plain keep rate echo
      (arrive whole plain keep rate echo 10 quiet idle_station).0
      (arrive whole plain keep rate echo 10 quiet idle_station).1
      quiet_end.0
detect_frames-Runs_example =
    detect_frames-Runs whole plain keep rate echo 10 quiet idle_station quiet_end.0 quiet_end.1

-- A frame that is counted between the report of the counters and their reset is in no report.
abbrev counted : Reporter whole plain keep rate echo
counted = record (reporter_of whole plain keep rate echo asleep.decoder) {
  rx_stats = register_frame whole true (new_statistics whole);
}

lost_count :
    report_step whole plain keep rate echo true later clearing counted
    ≡ some (
      syncing,
      [],
      record counted {
        rx_stats = record (new_statistics whole) { last_reset_timestamp = 6000010 };
      },
    )
unfolding report_step reset register_frame
lost_count = refl
