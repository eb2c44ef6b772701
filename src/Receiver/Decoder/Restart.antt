-- ===== src/Receiver/Decoder/Restart.antt =====
-- A transponder that is learned by `report_detections` of src/commons.cpp, and the next start of the
-- program, whose `init_commons` reads what was written.
use openstint.Base.{
  All, List, Option, [], ap, arith, bind-eq-some, contains, contains-append, last_or, length, ltb,
  none, refl, some, subst, sym, true, ℕ, ◌++◌, ◌<◌, ◌^◌, ◌∙◌, ◌∷◌, ◌≡◌, ◌≤◌, ℕ_key,
}
use openstint.Float.{Float}
use openstint.Transponder.{Codec}
use openstint.Frame.{Frame}
use openstint.Reader.Liquid.{Dsp}
use openstint.Rc4.Lines.{payloads_of, print_lines}
use openstint.Rc4.Lines.Roundtrip.{payloads_of-print_lines, IsComplete}
use openstint.Rc4.Registry.{lookup}
use openstint.Rc4.FileBased.{DirectoryEntry, new_file_based, file_of, resync}
use openstint.Rc4.FileBased.Names.{file_id-file_of}
use openstint.Rc4.FileBased.Restart.{NotFor, Without, resync-lookup}
use openstint.Rc4.Trainer.{registry_payloads}
use openstint.Rc4.Trainer.Payloads.{occurrences, contains-registry_payloads}
use openstint.Receiver.{Receiver}
use openstint.Receiver.Learning.{learn, lookup-learn}
use openstint.Receiver.Report.{Report, Reporter, report_done, resync_registry}
use openstint.Receiver.Decoder.{init_commons, started}

last-append : {A : Type 0} (xs : List A) (x d : A) → last_or (xs ++ x ∷ []) d ≡ x
last-append [] x d = refl
last-append (y ∷ xs) x d = last-append xs x y

module _ (F : Float) (dsp : Dsp F) (fir : List F.R → List F.R → List F.R) (sample_rate : ℕ)
    (codec : Codec) where
  abbrev C : Type 0
  C = Reporter F dsp fir sample_rate codec

  abbrev R : Type 0
  R = Receiver F fir sample_rate codec

  abbrev reporter_in : C → Option (List (Report F) × C) → C
  reporter_in c none = c
  reporter_in c (some p) = p.1

  -- What is written is what is learned.
  report_done-learn :
      (status_ts : ℕ) (c c' : C) (reports : List (Report F))
      → report_done F dsp fir sample_rate codec status_ts c ≡ some (reports, c')
      → (out : ℕ × ℕ × R) × (learn F fir sample_rate codec c.receiver ≡ some out)
        × (c'.receiver ≡ out.2)
        × (c'.appended
            ≡ c.appended ++ (out.0, print_lines (registry_payloads F c.receiver.trainer)) ∷ [])
  unfolding report_done
  report_done-learn status_ts c c' reports e =
      let (out, learned, made) = bind-eq-some (learn F fir sample_rate codec c.receiver) _ e in
      let same = ap (reporter_in c) made in
      (out, learned, ap (λ (x : C). x.receiver) (sym same), ap (λ (x : C). x.appended) (sym same))

  started-lookup :
      (q : ℕ) (entries : List DirectoryEntry) (f : Frame F)
      → lookup q (started F dsp fir sample_rate codec entries f).station.receiver.registry
        ≡ lookup q (resync entries new_file_based).base
  unfolding init_commons resync_registry
  started-lookup q entries f = refl

  -- What was learned before is known after the next start: the payloads that `learn` has stored under
  -- an id stand in the id's file.
  restarted-lookup :
      (q id : ℕ) (c : C) (old : List ℕ) (before after : List DirectoryEntry) (f : Frame F)
      → 1 < occurrences F q c.receiver.trainer.buffer
      → All (λ p. p < 2 ^ 64) (registry_payloads F c.receiver.trainer)
      → IsComplete old
      → 0 < id
      → id < 2 ^ 32
      → All (NotFor id) before
      → All (Without q) after
      → lookup q
          (started F dsp fir sample_rate codec
            (before
              ++ file_of id (old ++ print_lines (registry_payloads F c.receiver.trainer)) ∷ after)
            f).station.receiver.registry
        ≡ some id
  unfolding file_of
  restarted-lookup q id c old before after f twice small complete lo hi first last =
      let ps = registry_payloads F c.receiver.trainer in
      let text = old ++ print_lines ps in
      let there : contains q (payloads_of text) ≡ true =
        ap (contains q) (payloads_of-print_lines old ps complete small)
        ∙ contains-append q (payloads_of old) ps
        ∙ ground (arith, contains-registry_payloads F q c.receiver.trainer, twice) in
      started-lookup q (before ++ file_of id text ∷ after) f
      ∙ resync-lookup q id before after (file_of id text) (file_id-file_of id text hi)
          (ground (arith, lo)) there first last

  -- A learned transponder survives a restart: when the training is done and the reporting has
  -- appended a text for an id, every payload that stood more than once in the buffer is known under
  -- this id, at once and after the next start, when the id's file ends with that text. Conditions: the
  -- buffer is not empty and its payloads have 64 bits; the id is a 32-bit number and not 0; the file's
  -- last line was complete before; no file that is listed earlier has the same id, and none that is
  -- listed later the same payload.
  pub report_done-started :
      (q id status_ts : ℕ) (c c' : C) (reports : List (Report F)) (old text : List ℕ)
      (before after : List DirectoryEntry) (f : Frame F)
      → report_done F dsp fir sample_rate codec status_ts c ≡ some (reports, c')
      → c'.appended ≡ c.appended ++ (id, text) ∷ []
      → 1 ≤ length c.receiver.trainer.buffer
      → 1 < occurrences F q c.receiver.trainer.buffer
      → All (λ p. p < 2 ^ 64) (registry_payloads F c.receiver.trainer)
      → IsComplete old
      → 0 < id
      → id < 2 ^ 32
      → All (NotFor id) before
      → All (Without q) after
      → (lookup q c'.receiver.registry ≡ some id)
        × (lookup q
              (started F dsp fir sample_rate codec
                (before ++ file_of id (old ++ text) ∷ after)
                f).station.receiver.registry
            ≡ some id)
  report_done-started q id status_ts c c' reports old text before after f e written some_entry twice
        small complete lo hi first last =
      let (out, learned, kept, appended) = report_done-learn status_ts c c' reports e in
      let (out', learned', found) = lookup-learn F fir sample_rate codec q c.receiver some_entry in
      let ps = registry_payloads F c.receiver.trainer in
      let same : out' ≡ out = cc in
      let repeated : ltb 1 (occurrences F q c.receiver.trainer.buffer) ≡ true =
        ground (arith, twice) in
      let line : (out.0, print_lines ps) ≡ (id, text) =
        sym (last-append c.appended (out.0, print_lines ps) (id, text))
        ∙ ap (λ l. last_or l (id, text)) (sym appended ∙ written)
        ∙ last-append c.appended (id, text) (id, text) in
      let known : lookup q out.2.registry ≡ some out.0 =
        subst (λ (o : ℕ × ℕ × R). lookup q o.2.registry ≡ some o.0) same (found ∙ rw repeated) in
      (
        ap (λ (r : R). lookup q r.registry) kept ∙ known ∙ ap (λ (x : ℕ × List ℕ). some x.0) line,
        subst
            (λ t.
              lookup q
                (started F dsp fir sample_rate codec (before ++ file_of id (old ++ t) ∷ after)
                  f).station.receiver.registry
              ≡ some id)
            (ap (λ (x : ℕ × List ℕ). x.1) line)
            (restarted-lookup q id c old before after f twice small complete lo hi first last),
      )
