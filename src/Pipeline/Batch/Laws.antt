-- ===== src/Pipeline/Batch/Laws.antt =====
-- The counts of a batch agree with its rows.
use frontier_refactor_factor.Prelude.{
  ℕ, ◌+◌, ◌*◌, ◌≤◌, ◌<◌, ◌≡◌, ◌↔◌, refl, ◌∙◌, String, true, List, [], ◌∷◌, arith, if◌then◌else◌,
  count, count-le-length, str_eq, str_eq_iff,
}
use frontier_refactor_factor.Pipeline.Run.{Refused}
use frontier_refactor_factor.Pipeline.Batch.{
  Batch, Tally, is_factory, reason_key, add_one, tally_from, insert_tally, sort_tally, summary,
}

-- The three counts of a summary add up to the attempts, and a batch is trustworthy exactly when
-- something was attempted and at most a tenth of the attempts were refused by our own fault.
pub summary_adds_up :
    (b : Batch)
    → ((summary b).emitted + (summary b).refused_material + (summary b).refused_factory
        ≡ (summary b).attempted)
      × (((summary b).trustworthy ≡ true) ↔ (
          (0 < (summary b).attempted) × (10 * (summary b).refused_factory ≤ (summary b).attempted)))
unfolding summary
summary_adds_up b = (
  omega (arith, count-le-length (λ r. is_factory r.fault) b.refused),
  (λ h. (ground arith, ground arith), λ (p, q). ground arith),
)

-- The number that a tally has under a key, over all its rows of that key.
abbrev pub tallied : String → Tally → ℕ
tallied key [] = 0
tallied key ((k, n) ∷ tally) = (if str_eq k key then n else 0) + tallied key tally

tallied-add_one :
    (key k : String) (tally : Tally)
    → tallied key (add_one k tally) ≡ (if str_eq k key then 1 else 0) + tallied key tally
unfolding add_one
tallied-add_one key k [] = ground arith
tallied-add_one key k ((j, n) ∷ tally) =
    ground (arith, tallied-add_one key k tally, str_eq_iff j k, str_eq_iff j key, str_eq_iff k key)

tallied-tally_from :
    (key : String) (tally : Tally) (refused : List Refused)
    → tallied key (tally_from tally refused)
      ≡ count (λ r. str_eq (reason_key r) key) refused + tallied key tally
unfolding tally_from
tallied-tally_from key tally [] = omega arith
tallied-tally_from key tally (r ∷ refused) = ground (
  arith,
  tallied-tally_from key (add_one (reason_key r) tally) refused,
  tallied-add_one key (reason_key r) tally,
)

tallied-insert_tally :
    (key k : String) (n : ℕ) (tally : Tally)
    → tallied key (insert_tally (k, n) tally) ≡ (if str_eq k key then n else 0) + tallied key tally
unfolding insert_tally
tallied-insert_tally key k n [] = refl
tallied-insert_tally key k n ((j, m) ∷ tally) = ground (arith, tallied-insert_tally key k n tally)

tallied-sort_tally :
    (key : String) (tally : Tally) → tallied key (sort_tally tally) ≡ tallied key tally
unfolding sort_tally
tallied-sort_tally key [] = refl
tallied-sort_tally key ((k, n) ∷ tally) =
    ground (arith, tallied-insert_tally key k n (sort_tally tally), tallied-sort_tally key tally)

-- No row is smaller than the one below it.
abbrev pub Descends : ℕ → Tally → Type 0
Descends bound [] = Unit
Descends bound ((k, n) ∷ tally) = (n ≤ bound) × Descends n tally

abbrev pub IsDescending : Tally → Type 0
IsDescending [] = Unit
IsDescending ((k, n) ∷ tally) = Descends n tally

insert_tally-Descends :
    (bound : ℕ) (k : String) (n : ℕ) (tally : Tally)
    → n ≤ bound
    → Descends bound tally
    → Descends bound (insert_tally (k, n) tally)
unfolding insert_tally
insert_tally-Descends bound k n [] h d = (h, tt)
insert_tally-Descends bound k n ((j, m) ∷ tally) h d =
    ground (arith, insert_tally-Descends m k n tally)

insert_tally-IsDescending :
    (k : String) (n : ℕ) (tally : Tally)
    → IsDescending tally
    → IsDescending (insert_tally (k, n) tally)
unfolding insert_tally
insert_tally-IsDescending k n [] d = tt
insert_tally-IsDescending k n ((j, m) ∷ tally) d = ground (arith, insert_tally-Descends m k n tally)

sort_tally-IsDescending : (tally : Tally) → IsDescending (sort_tally tally)
unfolding sort_tally
sort_tally-IsDescending [] = tt
sort_tally-IsDescending ((k, n) ∷ tally) =
    insert_tally-IsDescending k n (sort_tally tally) (sort_tally-IsDescending tally)

-- The reasons of a summary are in descending order of their counts, and the count under each key is
-- the number of refusals with that stage and reason.
pub by_reason_exact :
    (b : Batch) (key : String)
    → IsDescending (summary b).by_reason
      × (tallied key (summary b).by_reason ≡ count (λ r. str_eq (reason_key r) key) b.refused)
unfolding summary
by_reason_exact b key = (
  sort_tally-IsDescending (tally_from [] b.refused),
  tallied-sort_tally key (tally_from [] b.refused)
      ∙ (tallied-tally_from key [] b.refused ∙ omega arith),
)
