-- ===== src/Stats/Authority/Shuffle.antt =====
-- The order of the candidates in stats/authority/list.go.
use thorflux.Base.{ℕ, List, map, select}
use thorflux.Base.Sorting.{key_lt, IsAscending, sort_by-perm, sort_by-IsAscending, key_lt-IsOrder}
use mathlib.Core.List.{Perm}
use thorflux.Stats.Authority.{Candidate, shuffle_candidates}

-- The shuffled addresses are the masters of the active candidates, each as often as before, by
-- ascending hash.
shuffle_candidates_sorted :
    (hash : ℕ → ℕ) (cs : List Candidate)
    → IsAscending (key_lt hash) (shuffle_candidates hash cs)
      × Perm
          (shuffle_candidates hash cs)
          (map (λ (c : Candidate). c.master) (select (λ (c : Candidate). c.active) cs))
unfolding shuffle_candidates
shuffle_candidates_sorted hash cs =
    (sort_by-IsAscending (key_lt-IsOrder hash) _, sort_by-perm (key_lt hash) _)
