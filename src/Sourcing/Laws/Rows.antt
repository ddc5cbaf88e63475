-- ===== src/Sourcing/Laws/Rows.antt =====
-- What a walk does to its memory and to its counts, row by row.
use frontier_refactor_factor.Prelude.{
  ℕ, ◌+◌, ◌≤◌, ◌<◌, ◌≡◌, refl, String, Bool, true, false, not, ◌&&◌, List, [], ◌∷◌, ◌++◌, arith,
  leb, if◌then◌else◌, length, length-append, All, All-append, str_eq_iff,
}
use frontier_refactor_factor.Pipeline.Spec.{Candidate}
use frontier_refactor_factor.Sourcing.Memory.{has, remember, page_of}
use frontier_refactor_factor.Sourcing.Fetch.{is_valid_candidate}
use frontier_refactor_factor.Sourcing.Walk.{Request, Progress, speaks, keeps, take_row, take_rows}
use frontier_refactor_factor.Sourcing.Laws.Memory.{contains-remember}
use frontier_refactor_factor.Sourcing.Laws.Fresh.{
  Grows, Grows-refl, Fresh, stop, yield_one, Fresh-append,
}

-- What a yielded candidate must be.
abbrev pub is_wanted : Request → Candidate → Bool
is_wanted q c = is_valid_candidate c && (speaks q.language_filter c && keeps q.keep c)

abbrev pub IsWanted : Request → Candidate → Type 0
IsWanted q c = is_wanted q c ≡ true

-- No cursor goes back.
pub record Advances (before after : List (String × ℕ)) : Type 0 where
  pub at : (key : String) → page_of before key ≤ page_of after key

-- From `p` to `p'` the candidates `ys` were yielded.
pub record Takes (q : Request) (p : Progress) (ys : List Candidate) (p' : Progress) : Type 0 where
  pub fresh : Fresh p.memory.seen ys p'.memory.seen
  pub wanted : All (IsWanted q) ys
  pub produced : p'.produced ≡ p.produced + length ys
  pub counted : p'.coverage.fresh ≡ p.coverage.fresh + length ys
  pub walked :
      p'.coverage.fresh + p'.coverage.repeats + p.coverage.walked
      ≤ p'.coverage.walked + p.coverage.fresh + p.coverage.repeats
  pub cursors : Advances p.memory.pages p'.memory.pages

pub Takes-append :
    {q : Request} {p p' p'' : Progress} {ys zs : List Candidate}
    → Takes q p ys p'
    → Takes q p' zs p''
    → Takes q p (ys ++ zs) p''
Takes-append {q} {ys = ys} {zs = zs} a b = record {
  fresh = Fresh-append a.fresh b.fresh;
  wanted = All-append (IsWanted q) ys zs a.wanted b.wanted;
  produced = omega (arith, length-append ys zs);
  counted = omega (arith, length-append ys zs);
  walked = omega arith;
  cursors = record { at = λ key. omega (arith, a.cursors.at key, b.cursors.at key) };
}

Grows-remember :
    (q : Request) (p : Progress) (id : String) → Grows p.memory.seen (remember p.memory id).seen
Grows-remember q p id = record { at = λ k h. ground (arith, contains-remember p.memory id k) }

abbrev yielded_list : Bool → Candidate → List Candidate
yielded_list true c = c ∷ []
yielded_list false c = []

yielded_list-Fresh :
    (b : Bool) (c : Candidate) {s t : List String}
    → Grows s t
    → (b ≡ true → has s c.identity ≡ false)
    → (b ≡ true → has t c.identity ≡ true)
    → Fresh s (yielded_list b c) t
yielded_list-Fresh true c {t = t} g n k = yield_one (n refl) g (k refl) (stop (Grows-refl t))
yielded_list-Fresh false c g n k = stop g

yielded_list-IsWanted :
    (q : Request) (b : Bool) (c : Candidate)
    → (b ≡ true → IsWanted q c)
    → All (IsWanted q) (yielded_list b c)
yielded_list-IsWanted q true c h = (h refl, tt)
yielded_list-IsWanted q false c h = tt

pages-remember :
    (q : Request) (p : Progress) (id : String) → (remember p.memory id).pages ≡ p.memory.pages
unfolding remember
pages-remember q p id = ground arith

module _ (q : Request) (p : Progress) (c : Candidate) where
  new_if_yielded : (take_row q p c).0 ≡ true → has p.memory.seen c.identity ≡ false
  unfolding take_row
  new_if_yielded h = ground arith

  Grows-take_row : Grows p.memory.seen (take_row q p c).1.memory.seen
  unfolding take_row
  Grows-take_row = record { at = λ id h. ground (arith, contains-remember p.memory c.identity id) }

  seen_if_yielded : (take_row q p c).0 ≡ true → has (take_row q p c).1.memory.seen c.identity ≡ true
  unfolding take_row
  seen_if_yielded h =
      ground
        (arith, contains-remember p.memory c.identity c.identity, str_eq_iff c.identity c.identity)

  IsWanted-if_yielded : (take_row q p c).0 ≡ true → IsWanted q c
  unfolding take_row
  IsWanted-if_yielded h = ground arith

  pages-take_row : (take_row q p c).1.memory.pages ≡ p.memory.pages
  unfolding take_row
  pages-take_row = ground (arith, pages-remember q p c.identity)

  pub take_row-Takes : Takes q p (yielded_list (take_row q p c).0 c) (take_row q p c).1
  unfolding take_row
  take_row-Takes = record {
    fresh = yielded_list-Fresh (take_row q p c).0 c Grows-take_row new_if_yielded seen_if_yielded;
    wanted = yielded_list-IsWanted q (take_row q p c).0 c IsWanted-if_yielded;
    produced = ground arith;
    counted = ground arith;
    walked = ground arith;
    cursors = record { at = λ key. ground (arith, pages-take_row) };
  }

pub Takes-none : (q : Request) (p : Progress) → Takes q p [] p
Takes-none q p = record {
  fresh = stop (Grows-refl p.memory.seen);
  wanted = tt;
  produced = omega arith;
  counted = omega arith;
  walked = omega arith;
  cursors = record { at = λ key. omega arith };
}

-- One round of the loop over a batch, from what its row did and what the rest does.
abbrev round :
    Bool → Bool → Candidate → Progress → List Candidate × Progress → List Candidate × Progress
round b spent c p' rest =
    if not b then rest else if spent then (c ∷ [], p') else (c ∷ rest.0, rest.1)

round-Takes :
    (q : Request) (p : Progress) (b spent : Bool) (c : Candidate) (p' : Progress)
    (rest : List Candidate × Progress)
    → Takes q p (yielded_list b c) p'
    → Takes q p' rest.0 rest.1
    → Takes q p (round b spent c p' rest).0 (round b spent c p' rest).1
round-Takes q p false spent c p' rest h k = Takes-append h k
round-Takes q p true true c p' rest h k = h
round-Takes q p true false c p' rest h k = Takes-append h k

pub take_rows-Takes :
    (q : Request) (p : Progress) (batch : List Candidate)
    → Takes q p (take_rows q p batch).0 (take_rows q p batch).1
unfolding take_rows
take_rows-Takes q p [] = Takes-none q p
take_rows-Takes q p (c ∷ batch) =
    let (yielded, p') = take_row q p c in
    round-Takes q p yielded (leb q.budget p'.produced) c p' (take_rows q p' batch)
      (take_row-Takes q p c) (take_rows-Takes q p' batch)

produced-take_row :
    (q : Request) (p : Progress) (c : Candidate)
    → (take_row q p c).1.produced ≡ p.produced + (if (take_row q p c).0 then 1 else 0)
unfolding take_row
produced-take_row q p c = ground arith

pub take_rows-within :
    (q : Request) (p : Progress) (batch : List Candidate)
    → p.produced < q.budget
    → (take_rows q p batch).1.produced ≤ q.budget
unfolding take_rows
take_rows-within q p [] h = omega arith
take_rows-within q p (c ∷ batch) h =
    let p' = (take_row q p c).1 in
    ground (arith, produced-take_row q p c, take_rows-within q p' batch)
