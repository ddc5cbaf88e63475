-- ===== src/Checkpoint/Laws/Report.antt =====
-- The report on a log.
use mathlib.Core.List.{append-nil, append_assoc}
use frontier_refactor_factor.Prelude.{
  ℕ, ◌+◌, ◌≡◌, refl, sym, ap, ◌∙◌, String, Bool, true, false, ◌&&◌, Option, some, List, [], ◌∷◌,
  ◌++◌, arith, if◌then◌else◌, length, str_eq, str_eq_iff, count, find, find-set,
}
use frontier_refactor_factor.Checkpoint.{
  Disk, lines_of, Fields, records, or_unknown, number, empty_summary, add_to, Summary, has_stage,
  emitted_path, add_record, add_records, summary,
}

-- The paths of the emitted tasks, in the order of the log.
abbrev pub paths_of : List Fields → List String
paths_of [] = []
paths_of (f ∷ fs) = emitted_path (or_unknown f.status) f.path ++ paths_of fs

find-same :
    (j k : String) (tally : List (String × ℕ))
    → str_eq k j ≡ true
    → number (find k tally) ≡ number (find j tally)
find-same j k tally e = ap (λ x. number (find x tally)) ((str_eq_iff k j).0 e)

number-if :
    (b : Bool) (n : ℕ) (o : Option ℕ)
    → number (if b then some n else o) ≡ (if b then n else number o)
number-if true n o = refl
number-if false n o = refl

find-add_to :
    (j k : String) (tally : List (String × ℕ))
    → number (find j (add_to k tally)) ≡ (if str_eq k j then 1 else 0) + number (find j tally)
unfolding add_to
find-add_to j k tally =
    ap number (find-set j k (number (find k tally) + 1) tally)
    ∙ number-if (str_eq k j) (number (find k tally) + 1) (find j tally)
    ∙ ground (arith, find-same j k tally)

module _ (j : String) where
  abbrev pub of_status : Fields → Bool
  of_status f = str_eq (or_unknown f.status) j

  abbrev pub of_scale : Fields → Bool
  of_scale f = str_eq (or_unknown f.scale) j

  abbrev pub of_stage : Fields → Bool
  of_stage f = has_stage (or_unknown f.status) && str_eq (or_unknown f.stage) j

  add_records_lem :
      (fs : List Fields) (s : Summary)
      → ((add_records s fs).total ≡ s.total)
        × (number (find j (add_records s fs).by_status)
            ≡ count of_status fs + number (find j s.by_status))
        × (number (find j (add_records s fs).by_scale)
            ≡ count of_scale fs + number (find j s.by_scale))
        × (number (find j (add_records s fs).by_stage)
            ≡ count of_stage fs + number (find j s.by_stage))
        × ((add_records s fs).emitted_paths ≡ s.emitted_paths ++ paths_of fs)
  unfolding add_records add_record
  add_records_lem [] s =
      (refl, omega arith, omega arith, omega arith, sym (append-nil s.emitted_paths))
  add_records_lem (f ∷ fs) s =
      let (total, status, scale, stage, paths) = add_records_lem fs (add_record s f) in
      (
        total,
        ground (arith, status, find-add_to j (or_unknown f.status) s.by_status),
        ground (arith, scale, find-add_to j (or_unknown f.scale) s.by_scale),
        ground (arith, stage, find-add_to j (or_unknown f.stage) s.by_stage),
        paths
            ∙ append_assoc s.emitted_paths (emitted_path (or_unknown f.status) f.path)
                (paths_of fs),
      )

  -- The report counts the records of the log: all of them, those of each status, those of each
  -- scale, and, of those refused or in error, those of each stage; and it lists the paths of the
  -- emitted ones in order. Each count is given for any name `j`, with 0 for one that is not there.
  pub summary_exact :
      (strip : String → String) (loads : String → Option Fields) (d : Disk)
      → let fs = records strip loads (lines_of d.log) in
        ((summary strip loads d).total ≡ length fs)
        × (number (find j (summary strip loads d).by_status) ≡ count of_status fs)
        × (number (find j (summary strip loads d).by_scale) ≡ count of_scale fs)
        × (number (find j (summary strip loads d).by_stage) ≡ count of_stage fs)
        × ((summary strip loads d).emitted_paths ≡ paths_of fs)
  unfolding summary
  summary_exact strip loads d =
      let fs = records strip loads (lines_of d.log) in
      let (total, status, scale, stage, paths) = add_records_lem fs (empty_summary fs) in
      (total, omega (arith, status), omega (arith, scale), omega (arith, stage), paths)
