-- ===== src/Process/Laws/Timed.antt =====
-- What may be held out of grading to be timed.
use frontier_refactor_factor.Prelude.{
  ℕ, zero, suc, ◌+◌, ◌-◌, ◌≡◌, ◌≤◌, ◌<◌, refl, ap, sym, ◌∙◌, String, Bool, true, false, not, ◌&&◌,
  ◌||◌, List, [], ◌∷◌, ◌++◌, if◌then◌else◌, ◌==◌, ltb, arith, length, select, count, has, eq_string,
  unique, has-append, has-select, unique-select, str_eq, str_eq_iff, is_nil, length-append,
}
use frontier_refactor_factor.Process.Timing.{
  Feature, Picked, family_of, candidates, best, priority_less, take_scenario, pick_loop,
  start_picking, pick_timed, min,
}

count-cong :
    (p q : String → Bool) (xs : List String) → ((x : String) → p x ≡ q x) → count p xs ≡ count q xs
count-cong p q [] h = refl
count-cong p q (x ∷ xs) h = ground (arith, h x, count-cong p q xs h)

-- Without one item that it has, the count of a list without repetitions is one less.
count-without :
    (p : String → Bool) (xs : List String) (y : String)
    → unique xs ≡ true
    → count p xs ≡ count (λ x. p x && not (str_eq x y)) xs + (if has xs y && p y then 1 else 0)
count-without p [] y u = refl
count-without p (x ∷ xs) y u =
    ground (arith, u, str_eq_iff x y, str_eq_iff y x, count-without p xs y)

module _ (features : List (String × Feature)) where
  -- The scenarios of a family that are not selected.
  abbrev pub unselected : List String → List String → String → ℕ
  unselected selected working f =
      count (λ p. str_eq (family_of features p) f && not (has selected p)) working

  pub record Picks (working : List String) (s : Picked) : Type 0 where
    pub inside : (p : String) → has s.selected p ≡ true → has working p ≡ true
    pub left : (f : String) → s.remaining f ≡ unselected s.selected working f
    pub kept : (f : String) → 0 < unselected [] working f → 0 < s.remaining f

  best-has :
      (s : Picked) (p : String) (ps : List String) → has (p ∷ ps) (best features s p ps) ≡ true
  unfolding best
  best-has s p [] = ground (arith, str_eq_iff p p)
  best-has s p (q ∷ ps) =
      elim (priority_less features s p q)
        as (λ b. has (p ∷ q ∷ ps) (best features s (if b then q else p) ps) ≡ true) [
          | true ↦ ground (arith, best-has s q ps)
          | false ↦ ground (arith, best-has s p ps)
        ]

  take_scenario-left :
      (working : List String) (s : Picked) (pid f : String)
      → unique working ≡ true
      → has working pid ≡ true
      → has s.selected pid ≡ false
      → s.remaining f ≡ unselected s.selected working f
      → (take_scenario features s pid).remaining f ≡ unselected (s.selected ++ pid ∷ []) working f
  unfolding take_scenario
  take_scenario-left working s pid f u m n h =
      let P = λ (p : String). str_eq (family_of features p) f && not (has s.selected p) in
      ground (
        arith,
        count-cong (λ p. str_eq (family_of features p) f && not (has (s.selected ++ pid ∷ []) p))
            (λ p. P p && not (str_eq p pid)) working
            (λ p. ground (arith, has-append s.selected pid p)),
        count-without P working pid u,
        h,
        str_eq_iff f (family_of features pid),
        str_eq_iff (family_of features pid) f,
      )

  take_scenario-Picks :
      (working : List String) (s : Picked) (pid : String)
      → unique working ≡ true
      → has (candidates features working s) pid ≡ true
      → Picks working s
      → Picks working (take_scenario features s pid)
  unfolding take_scenario
  take_scenario-Picks working s pid u c h =
      let is_free =
        λ (p : String). not (has s.selected p) && ltb 1 (s.remaining (family_of features p)) in
      let found = sym (has-select is_free working pid) ∙ c in
      record {
        inside = λ p m.
            ground (arith, h.inside p, has-append s.selected pid p, str_eq_iff p pid, m, found);
        left = λ f.
            take_scenario-left working s pid f u (ground (arith, found)) (ground (arith, found))
              (h.left f);
        kept = λ f k. ground (arith, h.kept f k, str_eq_iff f (family_of features pid), found);
      }

  next-Picks :
      (working : List String) (s : Picked) (cs : List String) (go : Picked → Picked)
      → unique working ≡ true
      → candidates features working s ≡ cs
      → Picks working s
      → ((t : Picked) → Picks working t → Picks working (go t))
      → Picks working
          (elim cs [ [] ↦ s | p ∷ ps ↦ go (take_scenario features s (best features s p ps)) ])
  next-Picks working s [] go u e h k = h
  next-Picks working s (p ∷ ps) go u e h k =
      let m = ap (λ cs. has cs (best features s p ps)) e ∙ best-has s p ps in
      k _ (take_scenario-Picks working s (best features s p ps) u m h)

  pick_loop-Picks :
      (working : List String) (n : ℕ) (s : Picked)
      → unique working ≡ true
      → Picks working s
      → Picks working (pick_loop features working n s)
  unfolding pick_loop
  pick_loop-Picks working zero s u h = h
  pick_loop-Picks working (suc n) s u h =
      next-Picks working s (candidates features working s) (pick_loop features working n) u refl h
        λ t k. pick_loop-Picks working n t u k

  length-next :
      (s : Picked) (n : ℕ) (cs : List String) (go : Picked → Picked)
      → ((t : Picked) → length (go t).selected ≤ length t.selected + n)
      → length
          (elim cs as (λ _. Picked) [
            | [] ↦ s
            | p ∷ ps ↦ go (take_scenario features s (best features s p ps))
          ]).selected
        ≤ length s.selected + suc n
  unfolding take_scenario
  length-next s n [] go k = omega arith
  length-next s n (p ∷ ps) go k = omega (
    arith,
    k (take_scenario features s (best features s p ps)),
    length-append s.selected (best features s p ps ∷ []),
  )

  length-pick_loop :
      (working : List String) (n : ℕ) (s : Picked)
      → length (pick_loop features working n s).selected ≤ length s.selected + n
  unfolding pick_loop
  length-pick_loop working zero s = omega arith
  length-pick_loop working (suc n) s =
      length-next s n (candidates features working s) (pick_loop features working n)
        (length-pick_loop working n)

  -- What may be held out of `working`: at most `n`, and one fewer than there are; and one of
  -- every family is left behind.
  pub record HeldOut (working : List String) (n : ℕ) (timed : List String) : Type 0 where
    pub inside : (p : String) → has timed p ≡ true → has working p ≡ true
    pub at_most : length timed ≤ min features n (length working - 1)
    pub left_behind : (f : String) → 0 < unselected [] working f → 0 < unselected timed working f

  none-HeldOut : (working : List String) (n : ℕ) → HeldOut working n []
  none-HeldOut working n = record {
    inside = λ p m. ground arith;
    at_most = ground arith;
    left_behind = λ f h. h;
  }

  HeldOut-if :
      (b : Bool) {working : List String} {n : ℕ} {xs ys : List String}
      → HeldOut working n xs
      → HeldOut working n ys
      → HeldOut working n (if b then xs else ys)
  HeldOut-if true h k = h
  HeldOut-if false h k = k

  picked-HeldOut :
      (working : List String) (n : ℕ)
      → unique working ≡ true
      → HeldOut working n
          (pick_loop features working
            (min features n (length working - 1))
            (start_picking features working)).selected
  picked-HeldOut working n u =
      let m = min features n (length working - 1) in
      let s = start_picking features working in
      let picks = pick_loop-Picks working m s u (record {
        inside = λ p k. ground arith;
        left = λ f.
            count-cong (λ p. str_eq (family_of features p) f)
              (λ p. str_eq (family_of features p) f && not (has [] p)) working (λ p. ground arith);
        kept = λ f k. ground (
          arith,
          k,
          count-cong (λ p. str_eq (family_of features p) f)
              (λ p. str_eq (family_of features p) f && not (has [] p)) working (λ p. ground arith),
        );
      }) in
      record {
        inside = picks.inside;
        at_most = omega (arith, length-pick_loop working m s);
        left_behind = λ f k. ground (arith, picks.kept f k, picks.left f);
      }

  -- What is held out to be timed has been frozen and is worth timing, is at most so many, and leaves
  -- of every family of such scenarios one behind.
  pub pick_timed_lem :
      (probe_ids worked : List String) (n : ℕ)
      → unique probe_ids ≡ true
      → HeldOut
          (select (λ pid. has worked pid) probe_ids)
          n
          (pick_timed features probe_ids n worked)
  unfolding pick_timed
  pick_timed_lem probe_ids worked n u =
      let working = select (λ pid. has worked pid) probe_ids in
      HeldOut-if (is_nil worked || n == 0) (none-HeldOut working n) (
        HeldOut-if (length working - 1 == 0) (none-HeldOut working n)
          (picked-HeldOut working n (unique-select (λ pid. has worked pid) probe_ids u)))
