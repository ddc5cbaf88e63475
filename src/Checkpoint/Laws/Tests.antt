-- ===== src/Checkpoint/Laws/Tests.antt =====
-- The theorems on the log at a batch that is killed while it writes.
use frontier_refactor_factor.Prelude.{
  ◌≡◌, refl, String, true, ◌&&◌, Option, none, some, List, [], ◌∷◌, ◌++◌, if◌then◌else◌, map,
  select, length, any, ◌⊎◌, str_eq, count, find,
}
use frontier_refactor_factor.Checkpoint.{
  CheckpointRecord, Disk, completes, killed, raises, at_write, at_replace, lines_of, Fields,
  load_completed, load_all, number, summary, records,
}
use frontier_refactor_factor.Checkpoint.Laws.Writing.{
  Attempt, lands, has_landed, line_of, is_named, write_all, write_all_lem,
}
use frontier_refactor_factor.Checkpoint.Laws.Reading.{fields_of, is_settled_record, resume_exact}
use frontier_refactor_factor.Checkpoint.Laws.Report.{
  of_status, of_scale, of_stage, paths_of, summary_exact,
}

abbrev emitted_a : CheckpointRecord
emitted_a = record {
  identity = "a";
  scale = "module";
  task_form = "inplace";
  status = "emitted";
  stage = "";
  reason = "";
  fault = "";
  timestamp = "";
  path = "out/a";
}

abbrev refused_b : CheckpointRecord
refused_b = record emitted_a {
  identity = "b";
  status = "refused";
  stage = "build";
  reason = "build-execution-unavailable";
  fault = "factory";
  path = "";
}

-- A notation for these two records, by their identities.
abbrev dumps : CheckpointRecord → String
dumps r = r.identity

abbrev loads : String → Option Fields
loads s =
    if str_eq s "a"
    then some (fields_of emitted_a)
    else if str_eq s "b"
    then some (fields_of refused_b)
    else none

abbrev strip : String → String
strip s = s

-- The first write of `a` is killed half way, and the next process writes it again.
abbrev attempts : List (Attempt CheckpointRecord)
attempts =
    record { course = killed (at_write ("a par" ∷ [])); tmp = ".ckpt-1.tmp"; record_of = emitted_a }
    ∷ record { course = completes; tmp = ".ckpt-2.tmp"; record_of = refused_b }
    ∷ record { course = raises at_replace true; tmp = ".ckpt-3.tmp"; record_of = refused_b }
    ∷ record { course = completes; tmp = ".ckpt-4.tmp"; record_of = emitted_a }
    ∷ []

abbrev empty_disk : Disk
empty_disk = record { log = none; temps = [] }

after_attempts :
    write_all dumps attempts empty_disk
    ≡ record { log = some ("b" ∷ "a" ∷ []); temps = (".ckpt-1.tmp", "a par" ∷ []) ∷ [] }
unfolding write_all
after_attempts = refl

-- The next process finds a torn file, and leaves it.
abbrev torn_disk : Disk
torn_disk = record { log = none; temps = (".ckpt-0.tmp", "a p" ∷ []) ∷ [] }

write_all_lem_example :
    (lines_of (write_all dumps attempts torn_disk).log
      ≡ [] ++ map (line_of dumps) (select (has_landed dumps) attempts))
    × ((is_named dumps ".ckpt-0.tmp" attempts ≡ true)
        ⊎ (find ".ckpt-0.tmp" (write_all dumps attempts torn_disk).temps ≡ some ("a p" ∷ [])))
write_all_lem_example = write_all_lem dumps attempts torn_disk ".ckpt-0.tmp"

resume_exact_example :
    any (λ j. str_eq j "b") (load_completed strip loads (write_all dumps attempts empty_disk))
    ≡ any
        (λ a. lands a.course && (str_eq a.record_of.identity "b" && is_settled_record a.record_of))
        attempts
resume_exact_example =
    resume_exact strip loads dumps "b" attempts []
      ((refl, refl), ((refl, refl), ((refl, refl), ((refl, refl), tt))))

abbrev two_lines : Disk
two_lines = record { log = some ("b" ∷ "" ∷ "{torn" ∷ "a" ∷ []); temps = [] }

summary_exact_example :
    let fs = records strip loads (lines_of two_lines.log) in
    ((summary strip loads two_lines).total ≡ length fs)
    × (number (find "refused" (summary strip loads two_lines).by_status)
        ≡ count (of_status "refused") fs)
    × (number (find "refused" (summary strip loads two_lines).by_scale)
        ≡ count (of_scale "refused") fs)
    × (number (find "refused" (summary strip loads two_lines).by_stage)
        ≡ count (of_stage "refused") fs)
    × ((summary strip loads two_lines).emitted_paths ≡ paths_of fs)
summary_exact_example = summary_exact "refused" strip loads two_lines

-- The report takes every record for processed, the resuming run only the settled ones.
readers_differ :
    (load_completed strip loads two_lines ≡ "a" ∷ [])
    × (load_all strip loads two_lines ≡ "b" ∷ "a" ∷ [])
unfolding load_completed load_all
readers_differ = (refl, refl)
