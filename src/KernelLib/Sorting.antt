-- ===== src/KernelLib/Sorting.antt =====
-- lib/kernel/list.c: the functions that compare elements. `less`, with its auxiliary data, is a
-- parameter. `n` is the fuel of each inner loop. A count of runs is at most the number of elements,
-- which have different addresses of 32 bits, so it does not wrap.
pub mod Runs
pub mod Merging
pub mod Passes
pub mod Ordered
mod Tests
use pintos_proj.Prelude.{
  ℕ, zero, suc, ◌+◌, Bool, true, false, ◌&&◌, ◌||◌, not, Option, none, some, ltb, ◌==◌,
  if◌then◌else◌, Outcome, ok, out_of_fuel, ◌>>=◌, ◌>>◌, assert,
}
use pintos_proj.KernelLib.Links.{
  Links, KernelList, list_begin, list_end, list_next, list_prev, list_insert, list_splice,
  list_remove, list_empty, list_push_back,
}

module _ (less : ℕ → ℕ → Bool) where
  -- The loop of is_sorted.
  unfoldable pub is_sorted_loop : ℕ → ℕ → ℕ → Links → Outcome Bool
  is_sorted_loop zero a b m = out_of_fuel
  is_sorted_loop (suc fuel) a b m = do
    a' ← list_next m a
    elim (a' == b) [
      | true ↦ ok true
      | false ↦ do
        p ← list_prev m a'
        elim (less a' p) [ true ↦ ok false | false ↦ is_sorted_loop fuel a' b m ]
    ]

  unfoldable pub is_sorted : ℕ → ℕ → ℕ → Links → Outcome Bool
  is_sorted n a b m = elim (a == b) [ true ↦ ok true | false ↦ is_sorted_loop n a b m ]

  -- The loop of find_end_of_run.
  unfoldable pub run_loop : ℕ → ℕ → ℕ → Links → Outcome ℕ
  run_loop zero a b m = out_of_fuel
  run_loop (suc fuel) a b m = do
    a' ← list_next m a
    elim (a' == b) [
      | true ↦ ok a'
      | false ↦ do
        p ← list_prev m a'
        elim (less a' p) [ true ↦ ok a' | false ↦ run_loop fuel a' b m ]
    ]

  unfoldable pub find_end_of_run : ℕ → ℕ → ℕ → Links → Outcome ℕ
  find_end_of_run n a b m = do
    assert (not (a == 0))
    assert (not (b == 0))
    assert (not (a == b))
    run_loop n a b m

  -- The loop of inplace_merge.
  unfoldable pub merge_loop : ℕ → ℕ → ℕ → ℕ → Links → Outcome Links
  merge_loop zero a0 a1b0 b1 m = out_of_fuel
  merge_loop (suc fuel) a0 a1b0 b1 m = elim ((a0 == a1b0) || (a1b0 == b1)) [
    | true ↦ ok m
    | false ↦ elim (less a1b0 a0) [
      | false ↦ do a0' ← list_next m a0; merge_loop fuel a0' a1b0 b1 m
      | true ↦ do
        a1b0' ← list_next m a1b0
        x ← list_prev m a1b0'
        m' ← list_splice a0 x a1b0' m
        merge_loop fuel a0 a1b0' b1 m'
    ]
  ]

  unfoldable pub inplace_merge : ℕ → ℕ → ℕ → ℕ → Links → Outcome Links
  inplace_merge n a0 a1b0 b1 m = do
    assert (not (a0 == 0))
    assert (not (a1b0 == 0))
    assert (not (b1 == 0))
    s ← is_sorted n a0 a1b0 m
    assert s
    s' ← is_sorted n a1b0 b1 m
    assert s'
    merge_loop n a0 a1b0 b1 m

  -- One pass of list_sort from the element `a0` on, with the number of runs that it put out.
  unfoldable pub pass_loop : ℕ → KernelList → ℕ → ℕ → ℕ → Links → Outcome (Links × ℕ)
  pass_loop n l zero a0 cnt m = out_of_fuel
  pass_loop n l (suc fuel) a0 cnt m = elim (a0 == list_end l) [
    | true ↦ ok (m, cnt)
    | false ↦ do
      a1b0 ← find_end_of_run n a0 (list_end l) m
      elim (a1b0 == list_end l) [
        | true ↦ ok (m, cnt + 1)
        | false ↦ do
          b1 ← find_end_of_run n a1b0 (list_end l) m
          m' ← inplace_merge n a0 a1b0 b1 m
          pass_loop n l fuel b1 (cnt + 1) m'
      ]
  ]

  -- The passes of list_sort.
  unfoldable pub sort_loop : ℕ → KernelList → ℕ → Links → Outcome Links
  sort_loop n l zero m = out_of_fuel
  sort_loop n l (suc fuel) m = do
    (m', output_run_cnt) ← pass_loop n l n (list_begin l m) 0 m
    elim (ltb 1 output_run_cnt) [ true ↦ sort_loop n l fuel m' | false ↦ ok m' ]

  unfoldable pub list_sort : ℕ → KernelList → Links → Outcome Links
  list_sort n l m = do
    m' ← sort_loop n l n m
    s ← is_sorted n (list_begin l m') (list_end l) m'
    assert s
    ok m'

  -- The loop of list_insert_ordered: the place for `elem`.
  unfoldable pub place_loop : ℕ → KernelList → ℕ → ℕ → Links → Outcome ℕ
  place_loop zero l elem e m = out_of_fuel
  place_loop (suc fuel) l elem e m = elim ((e == list_end l) || less elem e) [
    | true ↦ ok e
    | false ↦ do e' ← list_next m e; place_loop fuel l elem e' m
  ]

  unfoldable pub list_insert_ordered : ℕ → KernelList → ℕ → Links → Outcome Links
  list_insert_ordered n l elem m = do
    assert (not (elem == 0))
    e ← place_loop n l elem (list_begin l m) m
    list_insert e elem m

  -- The loop of list_unique.
  unfoldable pub unique_loop : ℕ → KernelList → Option KernelList → ℕ → Links → Outcome Links
  unique_loop zero l duplicates elem m = out_of_fuel
  unique_loop (suc fuel) l duplicates elem m = do
    next ← list_next m elem
    elim (next == list_end l) [
      | true ↦ ok m
      | false ↦ elim (not (less elem next) && not (less next elem)) [
        | true ↦ do
          (m', after) ← list_remove next m
          m'' ← elim duplicates [ none ↦ ok m' | some d ↦ list_push_back d next m' ]
          unique_loop fuel l duplicates elem m''
        | false ↦ unique_loop fuel l duplicates next m
      ]
    ]

  unfoldable pub list_unique : ℕ → KernelList → Option KernelList → Links → Outcome Links
  list_unique n l duplicates m =
      if list_empty l m then ok m else unique_loop n l duplicates (list_begin l m) m

  -- The loops of list_max and list_min, which take `e` for the best so far if `better best e`.
  unfoldable pub best_loop : (ℕ → ℕ → Bool) → ℕ → KernelList → ℕ → ℕ → Links → Outcome ℕ
  best_loop better zero l best e m = out_of_fuel
  best_loop better (suc fuel) l best e m = elim (e == list_end l) [
    | true ↦ ok best
    | false ↦ do
      e' ← list_next m e
      best_loop better fuel l (if better best e then e else best) e' m
  ]

  unfoldable pub list_max : ℕ → KernelList → Links → Outcome ℕ
  list_max n l m = elim (list_begin l m == list_end l) [
    | true ↦ ok (list_begin l m)
    | false ↦ do
      e ← list_next m (list_begin l m)
      best_loop (λ max e. less max e) n l (list_begin l m) e m
  ]

  unfoldable pub list_min : ℕ → KernelList → Links → Outcome ℕ
  list_min n l m = elim (list_begin l m == list_end l) [
    | true ↦ ok (list_begin l m)
    | false ↦ do
      e ← list_next m (list_begin l m)
      best_loop (λ min e. less e min) n l (list_begin l m) e m
  ]
