-- ===== src/Process.antt =====
-- frf/observe/process: the seam that observes a command by the code it exits with, what it writes
-- to its two streams, and the directory that it leaves. Here is observation.py. `sha` is
-- `hashlib.sha256` of a text's UTF-8, in hexadecimal.
pub mod Battery
pub mod Corpus
pub mod Freeze
pub mod Laws
pub mod Tally
pub mod Timing
pub mod Workload
use Prim.Native.Char.{Char, nul}
use frontier_refactor_factor.Prelude.{
  ℕ, zero, suc, ◌+◌, String, ◌<>◌, Bool, true, false, not, ◌&&◌, ◌||◌, List, [], ◌∷◌, ◌++◌, map,
  Option, none, some, ltb, ◌==◌, if◌then◌else◌, str_eq, Message, lit, fmt, num, str, int, ints,
  sorted_ints, cat, length, get_elem?, any, count, has, distinct, is_nil, ℤ, pos, str_int, eq_nat,
  eq_int, eq_string, eq_option,
}

pub record Stream : Type 0 where
  pub lines : List String

pub record Observation : Type 0 where
  pub exit_code : ℤ
  pub stdout : Stream
  pub stderr : Stream
  pub tree : Stream

-- `CHANNELS`
pub data Channel : Type 0 where
  exit_channel stdout_channel stderr_channel tree_channel : Channel

abbrev pub channels : List Channel
channels = exit_channel ∷ stdout_channel ∷ stderr_channel ∷ tree_channel ∷ []

abbrev pub channel_name : Channel → String
channel_name exit_channel = "exit_code"
channel_name stdout_channel = "stdout"
channel_name stderr_channel = "stderr"
channel_name tree_channel = "tree"

-- `masked` has the positions in ascending order.
pub record ChannelExpectation : Type 0 where
  pub digest : String
  pub line_count : ℕ
  pub masked : List ℕ
  pub graded : Bool
  pub reason : Message

pub record Expectation : Type 0 where
  pub step : ℕ
  pub exit_code : ChannelExpectation
  pub stdout : ChannelExpectation
  pub stderr : ChannelExpectation
  pub tree : ChannelExpectation

abbrev pub channel_of : Expectation → Channel → ChannelExpectation
channel_of e exit_channel = e.exit_code
channel_of e stdout_channel = e.stdout
channel_of e stderr_channel = e.stderr
channel_of e tree_channel = e.tree

abbrev pub graded_points : Expectation → ℕ
graded_points e = count (λ c. (channel_of e c).graded) channels

abbrev newline : Char
newline = "\n"

-- `"\n".join(ts)`
abbrev pub join_lines : List String → String
join_lines [] = String.[]
join_lines (t ∷ []) = t
join_lines (t ∷ u ∷ ts) = t <> String.◌∷◌ newline (join_lines (u ∷ ts))

-- `["\x00" if i in masked else line for i, line in enumerate(lines)]`, from the position `i` on
abbrev pub kept_lines : List ℕ → ℕ → List String → List String
kept_lines masked i [] = []
kept_lines masked i (line ∷ lines) =
    (if has masked i then String.◌∷◌ nul String.[] else line) ∷ kept_lines masked (suc i) lines

-- `len({r.lines[i] for r in runs}) > 1`
unfoldable pub varies : List Stream → ℕ → Bool
varies runs i = ltb 1 (length (distinct (map (λ r. get_elem? r.lines i) runs)))

-- `frozenset(i for i in range(i, i + n) if varies(i))`
unfoldable pub varying : List Stream → ℕ → ℕ → List ℕ
unfolding varies
varying runs i zero = []
varying runs i (suc n) =
    let rest = varying runs (suc i) n in if varies runs i then i ∷ rest else rest

-- `counts.pop() if counts else 0`, of a set of at most one count
abbrev pub pop_count : List ℕ → ℕ
pop_count [] = 0
pop_count (n ∷ ns) = n

abbrev pub ungraded : ℕ → List ℕ → Message → ChannelExpectation
ungraded n masked reason = record {
  digest = "";
  line_count = n;
  masked = masked;
  graded = false;
  reason = reason;
}

abbrev pub expects : String → ℕ → List ℕ → ChannelExpectation
expects digest n masked = record {
  digest = digest;
  line_count = n;
  masked = masked;
  graded = true;
  reason = lit "";
}

-- What a grade answers: (passed, total, reasons).
abbrev pub Marks : Type 0
Marks = ℕ × ℕ × List Message

-- ` (%d line(s) not graded)`
abbrev pub ungraded_note : List ℕ → Message
ungraded_note masked =
    if is_nil masked then lit "" else fmt " (%d line(s) not graded)" (num (length masked) ∷ [])

module _ (sha : String → String) where
  -- `_digest`
  unfoldable pub digest_text : String → String
  digest_text text = "sha256:" <> sha text

  unfoldable pub digest_stream : Stream → List ℕ → String
  unfolding digest_text
  digest_stream s masked = digest_text (join_lines (kept_lines masked 0 s.lines))

  -- `runs[0].digest(masked)`; `freeze` has returned before, where there is no run
  unfoldable pub first_digest : List Stream → List ℕ → String
  unfolding digest_stream
  first_digest [] masked = ""
  first_digest (r ∷ runs) masked = digest_stream r masked

  unfoldable pub freeze_stream : List Stream → ChannelExpectation
  unfolding varying first_digest
  freeze_stream runs =
      let counts = distinct (map (λ r. length r.lines) runs) in
      let n = pop_count counts in
      let masked = varying runs 0 n in
      if ltb 1 (length counts)
      then ungraded 0 [] (
          fmt "the reference produced %s different line counts across %d runs"
            (ints (sorted_ints (map pos counts)) ∷ num (length runs) ∷ []))
      else if not (n == 0) && length masked == n
      then ungraded n masked (fmt "every one of the %d lines varies between runs" (num n ∷ []))
      else expects (first_digest runs masked) n masked

  unfoldable pub freeze_exit : Observation → List Observation → ChannelExpectation
  unfolding digest_text str_int
  freeze_exit r runs =
      let codes = distinct (map (λ o. o.exit_code) runs) in
      if length codes == 1
      then expects (digest_text (str_int r.exit_code)) 1 []
      else ungraded 1 [] (
          fmt "the reference exited %s across %d runs"
            (ints (sorted_ints codes) ∷ num (length runs) ∷ []))

  unfoldable pub freeze_step : ℕ → List Observation → Expectation
  unfolding freeze_exit freeze_stream
  freeze_step step [] =
      let blank = ungraded 0 [] (lit "the reference never ran") in
      record { step = step; exit_code = blank; stdout = blank; stderr = blank; tree = blank }
  freeze_step step (r ∷ rs) = record {
    step = step;
    exit_code = freeze_exit r (r ∷ rs);
    stdout = freeze_stream (map (λ o. o.stdout) (r ∷ rs));
    stderr = freeze_stream (map (λ o. o.stderr) (r ∷ rs));
    tree = freeze_stream (map (λ o. o.tree) (r ∷ rs));
  }

  unfoldable pub froze_work : List Expectation → Bool
  unfolding digest_text str_int
  froze_work [] = false
  froze_work (e ∷ steps) =
      let rest = froze_work steps in
      e.stdout.graded
        && (ltb 0 e.stdout.line_count && not (str_eq e.stdout.digest (digest_text "")))
      || (e.exit_code.graded && str_eq e.exit_code.digest (digest_text (str_int (pos 0))) || rest)

  unfoldable pub grade_exit : ℕ → ChannelExpectation → ℤ → Marks
  unfolding digest_text str_int
  grade_exit step expected code =
      if not expected.graded
      then (0, 0, [])
      else if str_eq (digest_text (str_int code)) expected.digest
      then (1, 1, [])
      else (
        0,
        1,
        fmt "step %d exit_code: expected the frozen value, got %d" (num step ∷ int code ∷ []) ∷ [],
      )

  unfoldable pub grade_stream : ℕ → String → ChannelExpectation → Stream → Marks
  unfolding digest_stream
  grade_stream step name expected stream =
      if not expected.graded
      then (0, 0, [])
      else if not (length stream.lines == expected.line_count)
      then (
        0,
        1,
        fmt "step %d %s: expected %d line(s), got %d"
              (num step ∷ str name ∷ num expected.line_count ∷ num (length stream.lines) ∷ [])
            ∷ [],
      )
      else if str_eq (digest_stream stream expected.masked) expected.digest
      then (1, 1, [])
      else (
        0,
        1,
        cat
              (fmt "step %d %s: %d line(s) match in count but differ in content"
                (num step ∷ str name ∷ num expected.line_count ∷ []))
              (ungraded_note expected.masked)
            ∷ [],
      )

  unfoldable pub grade_channel : Expectation → Observation → Channel → Marks
  unfolding grade_exit grade_stream
  grade_channel e actual exit_channel = grade_exit e.step e.exit_code actual.exit_code
  grade_channel e actual stdout_channel = grade_stream e.step "stdout" e.stdout actual.stdout
  grade_channel e actual stderr_channel = grade_stream e.step "stderr" e.stderr actual.stderr
  grade_channel e actual tree_channel = grade_stream e.step "tree" e.tree actual.tree

  unfoldable pub grade_over : Expectation → Observation → List Channel → Marks
  unfolding grade_channel
  grade_over e actual [] = (0, 0, [])
  grade_over e actual (c ∷ cs) =
      let (p, t, rs) = grade_channel e actual c in
      let (passed, total, reasons) = grade_over e actual cs in
      (p + passed, t + total, rs ++ reasons)

  unfoldable pub grade : Expectation → Observation → Marks
  unfolding grade_over
  grade e actual = grade_over e actual channels
