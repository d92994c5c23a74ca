-- ===== src/KernelLib/Sorting/Tests.antt =====
-- lib/kernel/list.c: a list of four elements, sorted by the last digit of their addresses.
use mathlib.Core.List.{Perm}
use pintos_proj.Prelude.{
  ℕ, zero, suc, ◌%◌, ◌≡◌, refl, Bool, List, [], ◌∷◌, ◌++◌, ◌==◌, ltb, arith, Outcome, ok, panic,
  out_of_fuel, if◌then◌else◌,
}
use pintos_proj.KernelLib.Links.{
  Links, KernelList, list_insert, list_remove, list_reverse, reverse_loop, list_splice, list_next,
  list_prev,
}
use pintos_proj.KernelLib.Links.Seg.{IsList, Seg, Distinct}
use pintos_proj.KernelLib.Links.Insert.{SameOutside}
use pintos_proj.KernelLib.Links.Deque.{list_insert-IsList, list_remove-IsList}
use pintos_proj.KernelLib.Sorting.{
  list_sort, sort_loop, pass_loop, find_end_of_run, run_loop, inplace_merge, is_sorted,
  is_sorted_loop, merge_loop, list_insert_ordered, list_max, list_min, best_loop,
}
use pintos_proj.KernelLib.Sorting.Runs.{IsSorted, IsAsymmetric, run_count, descents}
use pintos_proj.KernelLib.Sorting.Passes.{list_sort-IsSorted}
use pintos_proj.KernelLib.Sorting.Ordered.{IsPlace, list_insert_ordered-IsPlace}

abbrev by_digit : ℕ → ℕ → Bool
by_digit x y = ltb (x % 10) (y % 10)

by_digit-IsAsymmetric : IsAsymmetric by_digit
by_digit-IsAsymmetric x y h = ground (arith, h)

abbrev numbers : KernelList
numbers = record { head = 1; tail = 2 }

-- The links of the list 14, 22, 33, 11.
abbrev next_of : ℕ → ℕ
next_of z =
    if z == 1
    then 14
    else if z == 14
    then 22
    else if z == 22
    then 33
    else if z == 33
    then 11
    else if z == 11
    then 2
    else 0

abbrev prev_of : ℕ → ℕ
prev_of z =
    if z == 2
    then 11
    else if z == 11
    then 33
    else if z == 33
    then 22
    else if z == 22
    then 14
    else if z == 14
    then 1
    else 0

abbrev four : Links
four = record { prev = prev_of; next = next_of }

four-IsList : IsList four numbers (14 ∷ (22 ∷ (33 ∷ (11 ∷ []))))
unfolding Seg Distinct
four-IsList = record {
  seg = (refl, refl, (refl, refl, (refl, refl, (refl, refl, (refl, refl)))));
  distinct = (refl, (refl, (refl, (refl, (refl, (refl, tt))))));
  not_null = refl;
  before = refl;
  after = refl;
}

list_sort-IsSorted_example :
    (m' : Links) × (ys : List ℕ) × (list_sort by_digit 5 numbers four ≡ ok m')
    × IsList m' numbers ys
    × Perm ys (14 ∷ (22 ∷ (33 ∷ (11 ∷ []))))
    × IsSorted by_digit ys
list_sort-IsSorted_example =
    list_sort-IsSorted by_digit numbers 5 by_digit-IsAsymmetric four (14 ∷ (22 ∷ (33 ∷ (11 ∷ []))))
      four-IsList (omega arith)

list_insert-IsList_example :
    (m' : Links) × (list_insert 33 15 four ≡ ok m')
    × IsList m' numbers (14 ∷ (22 ∷ (15 ∷ (33 ∷ (11 ∷ [])))))
    × SameOutside (15 ∷ (1 ∷ (14 ∷ (22 ∷ (33 ∷ (11 ∷ (2 ∷ []))))))) four m'
list_insert-IsList_example =
    list_insert-IsList four numbers (14 ∷ (22 ∷ [])) (33 ∷ (11 ∷ [])) 15 four-IsList
      (λ e. omega (arith, e)) refl

list_remove-IsList_example :
    (m' : Links) × (list_remove 22 four ≡ ok (m', 33))
    × IsList m' numbers (14 ∷ (33 ∷ (11 ∷ [])))
    × SameOutside (1 ∷ (14 ∷ (22 ∷ (33 ∷ (11 ∷ (2 ∷ [])))))) four m'
list_remove-IsList_example =
    list_remove-IsList four numbers (14 ∷ []) 22 (33 ∷ (11 ∷ [])) four-IsList

-- The links of the list 11, 33.
abbrev two : Links
two = record {
  next = λ z. if z == 1 then 11 else if z == 11 then 33 else if z == 33 then 2 else 0;
  prev = λ z. if z == 2 then 33 else if z == 33 then 11 else if z == 11 then 1 else 0;
}

two-IsList : IsList two numbers (11 ∷ (33 ∷ []))
unfolding Seg Distinct
two-IsList = record {
  seg = (refl, refl, (refl, refl, (refl, refl)));
  distinct = (refl, (refl, (refl, (refl, tt))));
  not_null = refl;
  before = refl;
  after = refl;
}

two-IsSorted : IsSorted by_digit (11 ∷ (33 ∷ []))
unfolding run_count descents
two-IsSorted = omega arith

list_insert_ordered-IsPlace_example :
    (m' : Links) × (ys : List ℕ) × (zs : List ℕ) × (list_insert_ordered by_digit 3 numbers 22 two
      ≡ ok m')
    × IsPlace by_digit 22 (11 ∷ (33 ∷ [])) ys zs
    × IsList m' numbers (ys ++ (22 ∷ zs))
    × IsSorted by_digit (ys ++ (22 ∷ zs))
list_insert_ordered-IsPlace_example =
    list_insert_ordered-IsPlace by_digit 22 two numbers by_digit-IsAsymmetric 3 (11 ∷ (33 ∷ []))
      two-IsList (omega arith) (λ e. omega (arith, e)) refl two-IsSorted

-- The elements from the front of a list, for as long as the links lead on.
abbrev forward : ℕ → Links → ℕ → List ℕ
forward zero m e = []
forward (suc fuel) m e = e ∷ forward fuel m (m.next e)

abbrev elements_of : Outcome Links → List ℕ
elements_of (ok m) = forward 6 m 1
elements_of panic = []
elements_of out_of_fuel = []

reversed : elements_of (list_reverse 5 numbers four) ≡ 1 ∷ (11 ∷ (33 ∷ (22 ∷ (14 ∷ (2 ∷ [])))))
unfolding list_reverse reverse_loop
reversed = refl

sorted : elements_of (list_sort by_digit 5 numbers four) ≡ 1 ∷ (11 ∷ (22 ∷ (33 ∷ (14 ∷ (2 ∷ [])))))
unfolding list_sort sort_loop pass_loop find_end_of_run run_loop inplace_merge is_sorted
    is_sorted_loop merge_loop list_splice list_next list_prev
sorted = refl

largest : list_max by_digit 5 numbers four ≡ ok 14
unfolding list_max best_loop list_next
largest = refl

smallest : list_min by_digit 5 numbers four ≡ ok 11
unfolding list_min best_loop list_next
smallest = refl
