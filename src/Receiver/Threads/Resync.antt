-- ===== src/Receiver/Threads/Resync.antt =====
-- The main thread's steps in `RC4FileBasedRegistry::resync` of src/rc4.cpp, with no step of the other
-- thread between them.
use mathlib.Core.List.{append_assoc}
use openstint.Base.{
  Bool, Bool-cases, List, Option, [], ap, arith, contains, inl, inr, insert, length, none, refl,
  some, suc, sym, zero, ℕ, ◌++◌, ◌+◌, ◌<◌, ◌>>=◌, ◌∙◌, ◌∷◌, ◌≡◌, ◌≤◌, ℕ_key,
}
use openstint.Float.{Float}
use openstint.Transponder.{Codec}
use openstint.Reader.Liquid.{Dsp}
use openstint.Rc4.Registry.{Registry, remove}
use openstint.Rc4.FileBased.{
  DirectoryEntry, FileBasedRegistry, file_id, load, scan_id, scan, sweep, resync,
}
use openstint.Receiver.Report.{Report, Reporter, resync_registry}
use openstint.Receiver.Threads.MainLoop.{
  Now, Point, sleeping, resyncing, scanning, sweeping, registry_of, with_registry, scan_step,
  sweep_step, report_step,
}

pub length-insert : (k : ℕ) (s : List ℕ) → length (insert k s) ≤ 1 + length s
unfolding insert
length-insert k [] = omega arith
length-insert k (j ∷ s) = ground (arith, length-insert k s)

abbrev Scan : Type 0
Scan = List ℕ × FileBasedRegistry

-- A file adds one id at most.
length-scan_id :
    (o : Option ℕ) (text : List ℕ) (st : Scan)
    → length (scan_id o text st).1.loaded_ids ≤ 1 + length st.1.loaded_ids
unfolding scan_id load
length-scan_id none text (ids, s) = omega arith
length-scan_id (some id) text (ids, s) = ground (arith, length-insert id s.loaded_ids)

length-scan :
    (es : List DirectoryEntry) (st : Scan)
    → length (scan es st).1.loaded_ids ≤ length es + length st.1.loaded_ids
unfolding scan
length-scan [] st = omega arith
length-scan (e ∷ es) st =
    omega
      (arith, length-scan_id (file_id e) e.text st, length-scan es (scan_id (file_id e) e.text st))

module _ (F : Float) (dsp : Dsp F) (fir : List F.R → List F.R → List F.R) (sample_rate : ℕ)
    (codec : Codec) (mode : Bool) (now : Now) where
  abbrev R : Type 0
  R = Reporter F dsp fir sample_rate codec

  abbrev Out : Type 0
  Out = Point × List (Report F) × R

  abbrev held : FileBasedRegistry → R → R
  held s c = with_registry F dsp fir sample_rate codec s c

  -- The steps up to the sleep, `n` at most: where they come to, with all that they report. `none` is
  -- a read of an empty buffer.
  unfoldable pub report_alone : ℕ → Point → R → Option Out
  report_alone n sleeping c = some (sleeping, [], c)
  report_alone zero point c = some (point, [], c)
  report_alone (suc n) point c = do
    (next, reports, c') ← report_step F dsp fir sample_rate codec mode now point c
    (end, rest, c'') ← report_alone n next c'
    some (end, reports ++ rest, c'')

  abbrev pub with_reports : List (Report F) → Option Out → Option Out
  with_reports reports o = o >>= λ p. some (p.0, reports ++ p.1, p.2)

  pub bind-id : (o : Option Out) → with_reports [] o ≡ o
  bind-id none = refl
  bind-id (some p) = refl

  -- The registry after the sweep over `ids`, with the ids before them.
  abbrev swept : List ℕ → List ℕ × Registry → FileBasedRegistry
  swept before out = record { base = out.1; loaded_ids = before ++ out.0 }

  after_sweep :
      (n id : ℕ) (before ids current : List ℕ) (c : R)
      → report_alone (suc n) (sweeping before (id ∷ ids) current) c
        ≡ with_reports [] (
            let out = sweep_step F dsp fir sample_rate codec before id ids current c in
            report_alone n out.0 out.1)
  unfolding report_alone report_step
  after_sweep n id before ids current c = refl

  sweep_end :
      (n : ℕ) (before current : List ℕ) (c : R)
      → report_alone (suc n) (sweeping before [] current) c ≡ some (sleeping, [], c)
  unfolding report_alone report_step
  sweep_end n before current c = refl

  sweep_alone :
      (n : ℕ) (before ids current : List ℕ) (c : R)
      → length ids < n
      → c.loaded_ids ≡ before ++ ids
      → report_alone n (sweeping before ids current) c
        ≡ some (sleeping, [], held (swept before (sweep ids current c.receiver.registry)) c)
  unfolding sweep_step sweep
  sweep_alone zero before ids current c h l = absurd (omega (arith, h))
  sweep_alone (suc n) before [] current c h l =
      sweep_end n before current c
      ∙ ap
          (λ ids.
            some (sleeping, [], held (record { base = c.receiver.registry; loaded_ids = ids }) c))
          l
  sweep_alone (suc n) before (id ∷ ids) current c h l =
      let r : Registry = c.receiver.registry in
      after_sweep n id before ids current c ∙ bind-id _ ∙ elim (Bool-cases (contains id current)) [
        | inl stays ↦
            let rest =
              sweep_alone n (before ++ id ∷ []) ids current c (omega (arith, h))
                (l ∙ sym (append_assoc before (id ∷ []) ids)) in
            let out = sweep ids current r in
            rw stays (
              rest
              ∙ ap (λ ids. some (sleeping, [], held (record { base = out.1; loaded_ids = ids }) c))
                  (append_assoc before (id ∷ []) out.0))
        | inr goes ↦
            let gone = held (record { base = remove id r; loaded_ids = before ++ ids }) c in
            rw goes (sweep_alone n before ids current gone (omega (arith, h)) refl)
      ]

  after_scan :
      (n : ℕ) (e : DirectoryEntry) (es : List DirectoryEntry) (current : List ℕ) (c : R)
      → report_alone (suc n) (scanning (e ∷ es) current) c
        ≡ with_reports [] (
            let out = scan_step F dsp fir sample_rate codec e es current c in
            report_alone n out.0 out.1)
  unfolding report_alone report_step
  after_scan n e es current c = refl

  scan_end :
      (n : ℕ) (current : List ℕ) (c : R)
      → report_alone (suc n) (scanning [] current) c
        ≡ with_reports [] (report_alone n (sweeping [] c.loaded_ids current) c)
  unfolding report_alone report_step
  scan_end n current c = refl

  abbrev before_sweep : List DirectoryEntry → List ℕ → R → Scan
  before_sweep es current c = scan es (current, registry_of F dsp fir sample_rate codec c)

  scan_alone :
      (n : ℕ) (es : List DirectoryEntry) (current : List ℕ) (c : R)
      → length es + 1 + length (before_sweep es current c).1.loaded_ids < n
      → report_alone n (scanning es current) c
        ≡ some (
          sleeping,
          [],
          held
              (let st = before_sweep es current c in
                swept [] (sweep st.1.loaded_ids st.0 st.1.base))
              c,
        )
  unfolding scan_step scan
  scan_alone zero es current c h = absurd (omega (arith, h))
  scan_alone (suc n) [] current c h =
      scan_end n current c
      ∙ bind-id _
      ∙ sweep_alone n [] c.loaded_ids current c (omega (arith, h)) refl
  scan_alone (suc n) (e ∷ es) current c h =
      let st = scan_id (file_id e) e.text (current, registry_of F dsp fir sample_rate codec c) in
      after_scan n e es current c
      ∙ bind-id _
      ∙ scan_alone n es st.0 (held st.1 c) (omega (arith, h))

  -- Enough steps for a resync.
  abbrev pub rounds : R → ℕ
  rounds c = length now.entries + length now.entries + length c.loaded_ids + 4

  resync_start :
      (n : ℕ) (c : R)
      → report_alone (suc n) resyncing c
        ≡ with_reports [] (report_alone n (scanning now.entries []) c)
  unfolding report_alone report_step
  resync_start n c = refl

  -- The steps of a resync do to the objects what `resync` does.
  pub resync_alone :
      (n : ℕ) (c : R)
      → rounds c ≤ n
      → report_alone n resyncing c
        ≡ some (sleeping, [], resync_registry F dsp fir sample_rate codec now.entries c)
  unfolding resync_registry resync
  resync_alone zero c h = absurd (omega (arith, h))
  resync_alone (suc n) c h =
      let bound = length-scan now.entries ([], registry_of F dsp fir sample_rate codec c) in
      resync_start n c ∙ bind-id _ ∙ scan_alone n now.entries [] c (omega (arith, h, bound))
