-- ===== src/Sourcing/Laws/Memory.antt =====
-- The memory of frf/core/sourcing.py: what it keeps when it is added to, saved and loaded.
use frontier_refactor_factor.Prelude.{
  ℕ, ◌≤◌, ◌≡◌, refl, ap, ◌∙◌, String, false, ◌||◌, Option, List, [], ◌∷◌, arith, if◌then◌else◌,
  sorted, insert, str_eq, str_eq_iff,
}
use frontier_refactor_factor.Sourcing.Memory.{
  Memory, Stored, has, contains, remember, page_of, resume_at, set_page, max, reached, save, to_set,
  load,
}

pub has_cong : (seen : List String) (a b : String) → a ≡ b → has seen a ≡ has seen b
has_cong seen a b e = ap (has seen) e

pub contains-remember :
    (m : Memory) (a b : String) → contains (remember m a) b ≡ (str_eq a b || contains m b)
unfolding remember
contains-remember m a b = ground (arith, has_cong m.seen a b, str_eq_iff a b)

page_of-set_page :
    (pages : List (String × ℕ)) (a b : String) (n : ℕ)
    → page_of (set_page pages a n) b ≡ (if str_eq a b then n else page_of pages b)
unfolding set_page
page_of-set_page [] a b n = refl
page_of-set_page ((k, m) ∷ pages) a b n =
    ground (arith, page_of-set_page pages a b n, str_eq_iff k a, str_eq_iff k b, str_eq_iff a b)

page_of_cong :
    (pages : List (String × ℕ)) (a b : String) → a ≡ b → page_of pages a ≡ page_of pages b
page_of_cong pages a b e = ap (page_of pages) e

-- The cursor of every index never goes back, and that of the index which is advanced is at the page
-- that was reached, or beyond it.
pub reached_advances :
    (m : Memory) (name other : String) (page : ℕ)
    → (resume_at m other ≤ resume_at (reached m name page) other)
      × (page ≤ resume_at (reached m name page) name)
unfolding resume_at reached
reached_advances m name other page =
    let n = max page (page_of m.pages name) in
    (
      ground (
        arith,
        page_of-set_page m.pages name other n,
        page_of_cong m.pages name other,
        str_eq_iff name other,
      ),
      ground (arith, page_of-set_page m.pages name name n, str_eq_iff name name),
    )

has-insert : (s id : String) (ts : List String) → has (insert s ts) id ≡ (str_eq s id || has ts id)
unfolding insert
has-insert s id [] = refl
has-insert s id (t ∷ ts) = ground (arith, has-insert s id ts)

has-sorted : (id : String) (ts : List String) → has (sorted ts) id ≡ has ts id
unfolding sorted
has-sorted id [] = refl
has-sorted id (t ∷ ts) = ground (arith, has-insert t id (sorted ts), has-sorted id ts)

has-to_set : (id : String) (ts : List String) → has (to_set ts) id ≡ has ts id
unfolding to_set
has-to_set id [] = refl
has-to_set id (t ∷ ts) = ground (arith, has-to_set id ts, has-to_set t ts, str_eq_iff t id)

-- A memory that is saved and loaded again has the identities and the cursors that it had.
pub load-save :
    (m : Memory) (file : Option Stored) (id : String)
    → str_eq m.path "" ≡ false
    → (contains (load m.path (save m file)) id ≡ contains m id)
      × (resume_at (load m.path (save m file)) id ≡ resume_at m id)
unfolding load save resume_at
load-save m file id h = (rw h (has-to_set id (sorted m.seen) ∙ has-sorted id m.seen), rw h refl)
