-- ===== src/Checkpoint.antt =====
-- frf/core/checkpoint.py: the log of a batch, that is written so that a crash cannot tear it, and
-- what a later run and a report read from it. A file is the list of its lines. Writing a record as
-- JSON and reading a line as JSON are arguments; a line that is JSON but no object is left out.
pub mod Laws
use frontier_refactor_factor.Prelude.{
  ℕ, zero, suc, ◌+◌, String, Bool, true, false, not, ◌&&◌, ◌||◌, Option, none, some, List, [], ◌∷◌,
  ◌++◌, if◌then◌else◌, str_eq, select, any, map, length, find, set,
}

pub record CheckpointRecord : Type 0 where
  pub identity : String
  pub scale : String
  pub task_form : String
  pub status : String
  pub stage : String
  pub reason : String
  pub fault : String
  pub timestamp : String
  pub path : String

-- The directory: the log, if it is there, and the temporary files beside it.
pub record Disk : Type 0 where
  pub log : Option (List String)
  pub temps : List (String × List String)

-- The statements of `write` at which it can stop. A write to the temporary file leaves some lines.
pub data Point : Type 0 where
  at_mkstemp at_read : Point
  at_write : List String → Point
  at_replace : Point

-- How a call goes: to its end; an exception is raised by a statement, and the file can or cannot
-- be unlinked, or is none that `except Exception` catches; or the process is killed before that
-- statement is through, or after the last one.
pub data Course : Type 0 where
  completes : Course
  raises : Point → Bool → Course
  killed : Point → Course
  killed_at_the_end : Course

pub data Ended : Type 0 where
  returned raised dead : Ended

abbrev pub lines_of : Option (List String) → List String
lines_of none = []
lines_of (some ls) = ls

-- What a statement does: it goes through, or it raises, or the process dies in it.
pub data Passed : Type 0 where
  went stopped died : Passed

abbrev pub is_mkstemp : Point → Bool
is_mkstemp at_mkstemp = true
is_mkstemp _ = false

abbrev pub is_read : Point → Bool
is_read at_read = true
is_read _ = false

abbrev pub is_write : Point → Bool
is_write (at_write left) = true
is_write _ = false

abbrev pub is_replace : Point → Bool
is_replace at_replace = true
is_replace _ = false

abbrev pub passes : (Point → Bool) → Course → Passed
passes is_here completes = went
passes is_here (raises p unlinks) = if is_here p then stopped else went
passes is_here (killed p) = if is_here p then died else went
passes is_here killed_at_the_end = went

-- What the file holds after the block that writes it, of the lines that it should hold.
abbrev pub written : Course → List String → List String
written (raises (at_write left) unlinks) new = left
written (killed (at_write left)) new = left
written _ new = new

-- `os.unlink`, and what `os.replace` does to the name that it moves
abbrev pub unlink : String → Disk → Disk
unlink tmp d = record d { temps = select (λ (n, ls). not (str_eq n tmp)) d.temps }

-- `os.replace(tmp, path)` is atomic: it is done, or nothing is.
abbrev pub moved_over : String → Disk → Disk
moved_over tmp d = record (unlink tmp d) { log = find tmp d.temps }

abbrev pub put_file : String → List String → Disk → Disk
put_file tmp ls d = record d { temps = set tmp ls d.temps }

-- The next statement runs if this one went through.
abbrev pub followed : Passed × Disk → (Disk → Passed × Disk) → Passed × Disk
followed (went, d) rest = rest d
followed (stopped, d) rest = (stopped, d)
followed (died, d) rest = (died, d)

-- A statement with its effect on the disk, which it has only if it goes through.
abbrev pub does : Passed → (Disk → Disk) → Disk → Passed × Disk
does went effect d = (went, effect d)
does stopped effect d = (stopped, d)
does died effect d = (died, d)

-- The block under `try`: the log is read, the temporary file written, and moved over the log.
unfoldable pub fill_and_replace : Course → String → String → Disk → Passed × Disk
fill_and_replace c tmp line d = followed (does (passes is_read c) (λ e. e) d) λ d1.
    followed (passes is_write c, put_file tmp (written c (lines_of d1.log ++ line ∷ [])) d1)
      λ d2. does (passes is_replace c) (moved_over tmp) d2

abbrev pub can_unlink : Course → Bool
can_unlink (raises p unlinks) = unlinks
can_unlink _ = false

-- `except Exception`: the temporary file is unlinked, if it can be.
abbrev pub cleaned : Course → String → Passed × Disk → Passed × Disk
cleaned c tmp (went, d) = (went, d)
cleaned c tmp (stopped, d) = (stopped, if can_unlink c then unlink tmp d else d)
cleaned c tmp (died, d) = (died, d)

abbrev pub ends : Course → Passed → Ended
ends killed_at_the_end went = dead
ends _ went = returned
ends _ stopped = raised
ends _ died = dead

-- `tmp` is the name that `mkstemp` gives.
unfoldable pub write : Course → String → String → Disk → Ended × Disk
unfolding fill_and_replace
write c tmp line d =
    let (passed, d') =
      followed (does (passes is_mkstemp c) (put_file tmp []) d)
        (λ d1. cleaned c tmp (fill_and_replace c tmp line d1)) in
    (ends c passed, d')

-- A line as a JSON object; a key that is missing is `none`.
pub record Fields : Type 0 where
  pub identity : Option String
  pub status : Option String
  pub scale : Option String
  pub stage : Option String
  pub fault : Option String
  pub path : Option String

abbrev pub is_text : Option String → String → Bool
is_text none s = false
is_text (some t) s = str_eq t s

-- Emitted, or refused because of the material.
unfoldable pub is_done : Fields → Bool
is_done f = is_text f.status "emitted" || (is_text f.status "refused" && is_text f.fault "material")

module _ (strip : String → String) (loads : String → Option Fields) where
  -- The lines that are JSON.
  unfoldable pub records : List String → List Fields
  records [] = []
  records (l ∷ ls) =
      let rest = records ls in
      if str_eq (strip l) ""
      then rest
      else elim (loads (strip l)) [ none ↦ rest | some f ↦ f ∷ rest ]

  -- `completed.add(record["identity"])`, for the records that pass
  unfoldable pub identities : (Fields → Bool) → List Fields → List String
  identities p [] = []
  identities p (f ∷ fs) =
      let rest = identities p fs in
      elim f.identity [ none ↦ rest | some i ↦ if p f then i ∷ rest else rest ]

  -- `CheckpointWriter.load_completed`, as a list of the members of the set
  unfoldable pub load_completed : Disk → List String
  unfolding records identities is_done
  load_completed d = identities is_done (records (lines_of d.log))

  -- `CheckpointReader.load_completed`
  unfoldable pub load_all : Disk → List String
  unfolding records identities
  load_all d = identities (λ f. true) (records (lines_of d.log))

-- `record.get(key, "unknown")`
abbrev pub or_unknown : Option String → String
or_unknown none = "unknown"
or_unknown (some s) = s

abbrev pub number : Option ℕ → ℕ
number none = 0
number (some n) = n

-- `tally[key] = tally.get(key, 0) + 1`
unfoldable pub add_to : String → List (String × ℕ) → List (String × ℕ)
add_to key tally = set key (number (find key tally) + 1) tally

pub record Summary : Type 0 where
  pub total : ℕ
  pub by_status : List (String × ℕ)
  pub by_scale : List (String × ℕ)
  pub by_stage : List (String × ℕ)
  pub emitted_paths : List String

abbrev pub has_stage : String → Bool
has_stage status = str_eq status "refused" || str_eq status "error"

-- `if status == "emitted" and r.get("path")`
abbrev pub emitted_path : String → Option String → List String
emitted_path status none = []
emitted_path status (some p) = if str_eq status "emitted" && not (str_eq p "") then p ∷ [] else []

unfoldable pub add_record : Summary → Fields → Summary
unfolding add_to
add_record s f =
    let status = or_unknown f.status in
    record {
      total = s.total;
      by_status = add_to status s.by_status;
      by_scale = add_to (or_unknown f.scale) s.by_scale;
      by_stage = if has_stage status then add_to (or_unknown f.stage) s.by_stage else s.by_stage;
      emitted_paths = s.emitted_paths ++ emitted_path status f.path;
    }

unfoldable pub add_records : Summary → List Fields → Summary
unfolding add_record
add_records s [] = s
add_records s (f ∷ fs) = add_records (add_record s f) fs

abbrev pub empty_summary : List Fields → Summary
empty_summary fs = record {
  total = length fs;
  by_status = [];
  by_scale = [];
  by_stage = [];
  emitted_paths = [];
}

unfoldable pub summary : (String → String) → (String → Option Fields) → Disk → Summary
unfolding records add_records
summary strip loads d =
    let all_records = records strip loads (lines_of d.log) in
    add_records (empty_summary all_records) all_records
