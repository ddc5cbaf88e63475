-- ===== src/Checkpoint/Laws/Reading.antt =====
-- What a later run and a report read from the log.
use frontier_refactor_factor.Prelude.{
  ◌≡◌, refl, ap, ◌∙◌, String, Bool, true, false, ◌&&◌, ◌||◌, Option, none, some, All, List, [], ◌∷◌,
  arith, if◌then◌else◌, map, select, any, str_eq,
}
use frontier_refactor_factor.Checkpoint.{
  CheckpointRecord, Fields, is_done, records, identities, load_completed,
}
use frontier_refactor_factor.Checkpoint.Laws.Writing.{
  Attempt, lands, has_landed, line_of, write_all, write_all_lem,
}

-- What a record is, read again: every key is there.
abbrev pub fields_of : CheckpointRecord → Fields
fields_of r = record {
  identity = some r.identity;
  status = some r.status;
  scale = some r.scale;
  stage = some r.stage;
  fault = some r.fault;
  path = some r.path;
}

-- Emitted, or refused because of the material.
abbrev pub is_settled_record : CheckpointRecord → Bool
is_settled_record r =
    str_eq r.status "emitted" || (str_eq r.status "refused" && str_eq r.fault "material")

module _ (strip : String → String) (loads : String → Option Fields)
    (dumps : CheckpointRecord → String) where
  -- The line of the record, stripped, is not empty, and is read as the record.
  abbrev pub ReadsBack : Attempt CheckpointRecord → Type 0
  ReadsBack a =
      (str_eq (strip (dumps a.record_of)) "" ≡ false)
      × (loads (strip (dumps a.record_of)) ≡ some (fields_of a.record_of))

  abbrev pub landed : List (Attempt CheckpointRecord) → List (Attempt CheckpointRecord)
  landed as' = select (has_landed dumps) as'

  records-cons :
      (a : Attempt CheckpointRecord) (ls : List String)
      → ReadsBack a
      → records strip loads (line_of dumps a ∷ ls) ≡ fields_of a.record_of ∷ records strip loads ls
  unfolding records
  records-cons a ls h = rw h.0 (rw h.1 refl)

  records-landed :
      (as' : List (Attempt CheckpointRecord))
      → All ReadsBack as'
      → records strip loads (map (line_of dumps) (landed as'))
        ≡ map (λ a. fields_of a.record_of) (landed as')
  unfolding records
  records-landed [] h = refl
  records-landed (a ∷ as') h =
      elim (lands a.course)
        as (λ b.
          records strip loads (map (line_of dumps) (if b then a ∷ landed as' else landed as'))
          ≡ map (λ x. fields_of x.record_of) (if b then a ∷ landed as' else landed as')) [
            | true ↦
                records-cons a (map (line_of dumps) (landed as')) h.0
                ∙ ap (λ fs. fields_of a.record_of ∷ fs) (records-landed as' h.1)
            | false ↦ records-landed as' h.1
          ]

  completed-any :
      (p : Fields → Bool) (i : String) (as' : List (Attempt CheckpointRecord))
      → any
          (λ j. str_eq j i)
          (identities strip loads p
            (map (λ a. fields_of a.record_of) (select (has_landed dumps) as')))
        ≡ any
            (λ a. lands a.course && (str_eq a.record_of.identity i && p (fields_of a.record_of)))
            as'
  unfolding identities
  completed-any p i [] = refl
  completed-any p i (a ∷ as') = ground (arith, completed-any p i as')

  -- A run that resumes from a log, however the runs before it were stopped, skips a candidate
  -- exactly when a call that got past its rename recorded it as emitted, or as refused because of
  -- the material, where the lines of the records are read back as the records: what was refused
  -- by the factory's fault is tried again.
  pub resume_exact :
      (i : String) (as' : List (Attempt CheckpointRecord)) (tmps : List (String × List String))
      → All ReadsBack as'
      → any
          (λ j. str_eq j i)
          (load_completed strip loads (write_all dumps as' (record { log = none; temps = tmps })))
        ≡ any
            (λ a.
              lands a.course && (str_eq a.record_of.identity i && is_settled_record a.record_of))
            as'
  unfolding load_completed is_done
  resume_exact i as' tmps h =
      ap (λ ls. any (λ j. str_eq j i) (identities strip loads is_done (records strip loads ls)))
        (write_all_lem dumps as' (record { log = none; temps = tmps }) "").0
      ∙ ap (λ fs. any (λ j. str_eq j i) (identities strip loads is_done fs)) (records-landed as' h)
      ∙ completed-any is_done i as'
