-- ===== src/Checkpoint/Laws/Writing.antt =====
-- The log under crashes: writes that go to their end, raise, or are killed, one after the other.
use mathlib.Core.List.{append-nil, append_assoc}
use frontier_refactor_factor.Prelude.{
  ◌≡◌, refl, sym, ap, ◌∙◌, String, Bool, true, false, List, [], ◌∷◌, ◌++◌, arith, if◌then◌else◌,
  map, select, find, find-set, str_eq, str_eq_iff, not, any, ◌⊎◌, inl, inr, Bool-cases,
}
use frontier_refactor_factor.Checkpoint.{
  Disk, Course, completes, raises, killed, killed_at_the_end, at_mkstemp, at_read, at_write,
  at_replace, lines_of, put_file, unlink, moved_over, fill_and_replace, followed, does, cleaned,
  Passed, went, stopped, died, passes, is_mkstemp, is_read, is_write, is_replace, written,
  can_unlink, write,
}

-- One call of `write`, by this process or by one that was started after it died.
pub record Attempt (R : Type 0) : Type 0 where
  pub course : Course
  pub tmp : String
  pub record_of : R

-- The calls that get past `os.replace`.
abbrev pub lands : Course → Bool
lands completes = true
lands killed_at_the_end = true
lands _ = false

module _ {R : Type 0} (dumps : R → String) where
  abbrev pub has_landed : Attempt R → Bool
  has_landed a = lands a.course

  abbrev pub line_of : Attempt R → String
  line_of a = dumps a.record_of

  unfoldable pub write_all : List (Attempt R) → Disk → Disk
  unfolding write
  write_all [] d = d
  write_all (a ∷ as') d = write_all as' (write a.course a.tmp (line_of a) d).1

  find-unlink :
      (n tmp : String) (temps : List (String × List String))
      → str_eq tmp n ≡ false
      → find n (select (λ (m, ls). not (str_eq m tmp)) temps) ≡ find n temps
  find-unlink n tmp [] h = refl
  find-unlink n tmp ((m, ls) ∷ temps) h =
      ground (arith, find-unlink n tmp temps h, str_eq_iff m tmp, str_eq_iff tmp n, str_eq_iff m n)

  -- What is left of another file than `tmp`.
  abbrev Leaves : String → String → Disk → Disk → Type 0
  Leaves n tmp d e = str_eq tmp n ≡ false → find n e.temps ≡ find n d.temps

  Leaves-put_file :
      (n tmp : String) (ls : List String) (d e : Disk)
      → Leaves n tmp d e
      → Leaves n tmp d (put_file tmp ls e)
  Leaves-put_file n tmp ls d e k h = ground (arith, find-set n tmp ls e.temps, h, k h)

  Leaves-unlink : (n tmp : String) (d e : Disk) → Leaves n tmp d e → Leaves n tmp d (unlink tmp e)
  Leaves-unlink n tmp d e k h = find-unlink n tmp e.temps h ∙ k h

  -- A file that was put is what is moved over the log.
  moved-put_file :
      (tmp : String) (ls : List String) (d : Disk)
      → lines_of (moved_over tmp (put_file tmp ls d)).log ≡ ls
  moved-put_file tmp ls d = ground (arith, find-set tmp tmp ls d.temps, str_eq_iff tmp tmp)

  write_log :
      (c : Course) (tmp line : String) (d : Disk)
      → lines_of (write c tmp line d).1.log ≡ lines_of d.log ++ (if lands c then line ∷ [] else [])
  unfolding write
  write_log completes tmp line d = moved-put_file tmp _ (put_file tmp [] d)
  write_log killed_at_the_end tmp line d = moved-put_file tmp _ (put_file tmp [] d)
  write_log (killed at_mkstemp) tmp line d = sym (append-nil (lines_of d.log))
  write_log (killed at_read) tmp line d = sym (append-nil (lines_of d.log))
  write_log (killed (at_write left)) tmp line d = sym (append-nil (lines_of d.log))
  write_log (killed at_replace) tmp line d = sym (append-nil (lines_of d.log))
  write_log (raises at_mkstemp u) tmp line d = sym (append-nil (lines_of d.log))
  write_log (raises at_read true) tmp line d = sym (append-nil (lines_of d.log))
  write_log (raises at_read false) tmp line d = sym (append-nil (lines_of d.log))
  write_log (raises (at_write left) true) tmp line d = sym (append-nil (lines_of d.log))
  write_log (raises (at_write left) false) tmp line d = sym (append-nil (lines_of d.log))
  write_log (raises at_replace true) tmp line d = sym (append-nil (lines_of d.log))
  write_log (raises at_replace false) tmp line d = sym (append-nil (lines_of d.log))

  Leaves-does :
      (n tmp : String) (p : Passed) (effect : Disk → Disk) (d e : Disk)
      → Leaves n tmp d e
      → Leaves n tmp d (effect e)
      → Leaves n tmp d (does p effect e).1
  Leaves-does n tmp went effect d e h k = k
  Leaves-does n tmp stopped effect d e h k = h
  Leaves-does n tmp died effect d e h k = h

  Leaves-followed :
      (n tmp : String) (x : Passed × Disk) (rest : Disk → Passed × Disk) (d : Disk)
      → Leaves n tmp d x.1
      → ((e : Disk) → Leaves n tmp d e → Leaves n tmp d (rest e).1)
      → Leaves n tmp d (followed x rest).1
  Leaves-followed n tmp (went, e) rest d h k = k e h
  Leaves-followed n tmp (stopped, e) rest d h k = h
  Leaves-followed n tmp (died, e) rest d h k = h

  Leaves-if :
      (n tmp : String) (b : Bool) (d e : Disk)
      → Leaves n tmp d e
      → Leaves n tmp d (if b then unlink tmp e else e)
  Leaves-if n tmp true d e h = Leaves-unlink n tmp d e h
  Leaves-if n tmp false d e h = h

  Leaves-cleaned :
      (n tmp : String) (c : Course) (x : Passed × Disk) (d : Disk)
      → Leaves n tmp d x.1
      → Leaves n tmp d (cleaned c tmp x).1
  Leaves-cleaned n tmp c (went, e) d h = h
  Leaves-cleaned n tmp c (stopped, e) d h = Leaves-if n tmp (can_unlink c) d e h
  Leaves-cleaned n tmp c (died, e) d h = h

  write-Leaves :
      (n tmp : String) (c : Course) (line : String) (d : Disk)
      → Leaves n tmp d (write c tmp line d).1
  unfolding write fill_and_replace
  write-Leaves n tmp c line d =
      Leaves-followed n tmp (does (passes is_mkstemp c) (put_file tmp []) d) _ d
        (Leaves-does n tmp (passes is_mkstemp c) (put_file tmp []) d d (λ h. refl)
          (Leaves-put_file n tmp [] d d λ h. refl))
        λ d1 k1. Leaves-cleaned n tmp c (fill_and_replace c tmp line d1) d (
          Leaves-followed n tmp (does (passes is_read c) (λ e. e) d1) _ d
            (Leaves-does n tmp (passes is_read c) (λ e. e) d d1 k1 k1)
            λ d2 k2.
              Leaves-followed n tmp
                (passes is_write c, put_file tmp (written c (lines_of d2.log ++ line ∷ [])) d2) _ d
                (Leaves-put_file n tmp (written c (lines_of d2.log ++ line ∷ [])) d d2 k2)
                λ d3 k3.
                  Leaves-does n tmp (passes is_replace c) (moved_over tmp) d d3 k3
                    (Leaves-unlink n tmp d d3 k3))

  map-if :
      (b : Bool) (a : Attempt R) (rest : List (Attempt R))
      → (if b then line_of a ∷ [] else []) ++ map line_of rest
        ≡ map line_of (if b then a ∷ rest else rest)
  map-if true a rest = refl
  map-if false a rest = refl

  select-append :
      (a : Attempt R) (as' : List (Attempt R)) (ls : List String)
      → (ls ++ (if lands a.course then line_of a ∷ [] else []))
          ++ map line_of (select has_landed as')
        ≡ ls ++ map line_of (select has_landed (a ∷ as'))
  select-append a as' ls =
      append_assoc ls (if lands a.course then line_of a ∷ [] else [])
        (map line_of (select has_landed as'))
      ∙ ap (λ t. ls ++ t) (map-if (lands a.course) a (select has_landed as'))

  write_all_log :
      (as' : List (Attempt R)) (d : Disk)
      → lines_of (write_all as' d).log ≡ lines_of d.log ++ map line_of (select has_landed as')
  unfolding write_all
  write_all_log [] d = sym (append-nil (lines_of d.log))
  write_all_log (a ∷ as') d =
      write_all_log as' (write a.course a.tmp (line_of a) d).1
      ∙ ap (λ ls. ls ++ map line_of (select has_landed as'))
          (write_log a.course a.tmp (line_of a) d)
      ∙ select-append a as' (lines_of d.log)

  abbrev pub is_named : String → List (Attempt R) → Bool
  is_named n as' = any (λ a. str_eq a.tmp n) as'

  write_all_leaves :
      (as' : List (Attempt R)) (n : String) (d : Disk)
      → is_named n as' ≡ false
      → find n (write_all as' d).temps ≡ find n d.temps
  unfolding write_all
  write_all_leaves [] n d h = refl
  write_all_leaves (a ∷ as') n d h =
      write_all_leaves as' n (write a.course a.tmp (line_of a) d).1 (ground (arith, h))
      ∙ write-Leaves n a.tmp a.course (line_of a) d (ground (arith, h))

  -- Whatever stops the calls of `write`, exceptions and kills of the process at any statement: the
  -- log has the lines that it had, and after them, whole and in order, the line of each call that
  -- got past its rename. And a file of any name beside the log, such as a temporary file that an
  -- earlier call left, is there with its lines as before, unless a call was given that name.
  pub write_all_lem :
      (as' : List (Attempt R)) (d : Disk) (n : String)
      → (lines_of (write_all as' d).log ≡ lines_of d.log ++ map line_of (select has_landed as'))
        × ((is_named n as' ≡ true) ⊎ (find n (write_all as' d).temps ≡ find n d.temps))
  write_all_lem as' d n = (
    write_all_log as' d,
    elim (Bool-cases (is_named n as')) [ inl e ↦ inl e | inr e ↦ inr (write_all_leaves as' n d e) ],
  )
