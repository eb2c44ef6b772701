-- ===== src/Tests/Restarting.antt =====
-- Tests of a restart: the transponder that Tests/Receiving has trained.
use openstint.Base.{[], arith, assign, find, insert, refl, some, ◌∷◌, ◌≡◌, ℕ_key}
use openstint.Transponder.{rc3}
use openstint.Statistics.{new_statistics}
use openstint.Rc4.Lines.{print_lines}
use openstint.Rc4.Registry.{lookup, store, reserve, assign_all}
use openstint.Rc4.FileBased.{file_of}
use openstint.Rc4.Trainer.{
  registry_payloads, preferred_transponder_id, first_known, tally, repeated, buffer_timerange,
}
use openstint.Passing.Detector.{passings_between, between_of}
use openstint.Receiver.Learning.{learn, learn_between, choose_id}
use openstint.Receiver.Report.{Reporter, learn_done, report_done}
use openstint.Receiver.Decoder.{started}
use openstint.Receiver.Decoder.Restart.{report_done-started}
use openstint.Tests.{whole, keep, rate, echo, frame_of}
use openstint.Tests.Buffers.{plain}
use openstint.Tests.Files.{file, file_id-file}
use openstint.Tests.Receiving.{trained}

abbrev done_training : Reporter whole plain keep rate echo
done_training = record {
  receiver = trained;
  rx_stats = new_statistics whole;
  loaded_ids = [];
  appended = [];
}

abbrev after_training : Reporter whole plain keep rate echo
after_training = record {
  receiver = record trained {
    registry = record { registry = (7, 1000) ∷ []; next_transponder = 1001 };
  };
  rx_stats = new_statistics whole;
  loaded_ids = 1000 ∷ [];
  appended = (1000, print_lines (7 ∷ [])) ∷ [];
}

report_done-after_training :
    report_done whole plain keep rate echo 5 done_training
    ≡ some (learn_done 5 1000 1 ∷ [], after_training)
unfolding report_done learn learn_between store reserve assign_all choose_id registry_payloads
    preferred_transponder_id first_known tally repeated buffer_timerange passings_between between_of
    assign find insert
report_done-after_training = refl

-- The directory has another transponder's file, and the file of 1000 with a line from before.
report_done-started_example :
    (lookup 7 after_training.receiver.registry ≡ some 1000)
    × (lookup 7
          (started whole plain keep rate echo
            (file ∷ file_of 1000 (49 ∷ 10 ∷ print_lines (7 ∷ [])) ∷ [])
            (frame_of rc3 [])).station.receiver.registry
        ≡ some 1000)
unfolding registry_payloads tally repeated assign find
report_done-started_example =
    report_done-started whole plain keep rate echo 7 1000 5 done_training after_training
      (learn_done 5 1000 1 ∷ []) (49 ∷ 10 ∷ []) (print_lines (7 ∷ [])) (file ∷ []) []
      (frame_of rc3 []) report_done-after_training refl (omega arith) (omega arith)
      (omega arith, tt) refl (omega arith) (omega arith)
      ((λ e. ground (arith, file_id-file, e)), tt) tt
