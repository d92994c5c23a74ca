-- ===== src/KernelLib/Links.antt =====
-- lib/kernel/list.c: doubly linked lists through the links that their elements hold. A pointer to a
-- `struct list_elem` is a number, and 0 is NULL; a `struct list` is the addresses of its two members.
-- `less`, with its auxiliary data, is a parameter: it reads what the elements stand in, not the links.
-- Each loop runs on fuel.
pub mod Seg
pub mod Insert
pub mod Remove
pub mod Steps
pub mod Deque
use pintos_proj.Prelude.{
  ℕ, zero, suc, ◌+◌, ◌%◌, ◌^◌, Bool, true, false, ◌&&◌, ◌||◌, not, Option, none, some, ltb, ◌==◌,
  if◌then◌else◌, Outcome, ok, out_of_fuel, ◌>>=◌, ◌>>◌, assert,
}

-- The members `prev` and `next` of every struct list_elem.
pub record Links : Type 0 where
  pub prev : ℕ → ℕ
  pub next : ℕ → ℕ

-- struct list
pub record KernelList : Type 0 where
  pub head : ℕ
  pub tail : ℕ

abbrev pub update : (ℕ → ℕ) → ℕ → ℕ → ℕ → ℕ
update f p v q = if p == q then v else f q

abbrev pub set_next : ℕ → ℕ → Links → Links
set_next p v m = record m { next = update m.next p v }

abbrev pub set_prev : ℕ → ℕ → Links → Links
set_prev p v m = record m { prev = update m.prev p v }

abbrev pub is_head : Links → ℕ → Bool
is_head m e = not (e == 0) && ((m.prev e == 0) && not (m.next e == 0))

abbrev pub is_interior : Links → ℕ → Bool
is_interior m e = not (e == 0) && (not (m.prev e == 0) && not (m.next e == 0))

abbrev pub is_tail : Links → ℕ → Bool
is_tail m e = not (e == 0) && (not (m.prev e == 0) && (m.next e == 0))

unfoldable pub list_init : KernelList → Links → Links
list_init l m =
    set_next l.tail 0 (set_prev l.tail l.head (set_next l.head l.tail (set_prev l.head 0 m)))

abbrev pub list_begin : KernelList → Links → ℕ
list_begin l m = m.next l.head

abbrev pub list_end : KernelList → ℕ
list_end l = l.tail

abbrev pub list_rbegin : KernelList → Links → ℕ
list_rbegin l m = m.prev l.tail

abbrev pub list_rend : KernelList → ℕ
list_rend l = l.head

abbrev pub list_head : KernelList → ℕ
list_head l = l.head

abbrev pub list_tail : KernelList → ℕ
list_tail l = l.tail

unfoldable pub list_next : Links → ℕ → Outcome ℕ
list_next m e = do assert (is_head m e || is_interior m e); ok (m.next e)

unfoldable pub list_prev : Links → ℕ → Outcome ℕ
list_prev m e = do assert (is_interior m e || is_tail m e); ok (m.prev e)

-- The four assignments of list_insert, in their order.
abbrev pub link_before : ℕ → ℕ → Links → Links
link_before before elem m =
    let m₁ = set_prev elem (m.prev before) m in
    let m₂ = set_next elem before m₁ in
    let m₃ = set_next (m₂.prev before) elem m₂ in set_prev before elem m₃

unfoldable pub list_insert : ℕ → ℕ → Links → Outcome Links
list_insert before elem m = do
  assert (is_interior m before || is_tail m before)
  assert (not (elem == 0))
  ok (link_before before elem m)

-- The assignments of list_splice.
abbrev pub move_before : ℕ → ℕ → ℕ → Links → Links
move_before before first last m =
    let m₁ = set_next (m.prev first) (m.next last) m in
    let m₂ = set_prev (m₁.next last) (m₁.prev first) m₁ in
    let m₃ = set_prev first (m₂.prev before) m₂ in
    let m₄ = set_next last before m₃ in
    let m₅ = set_next (m₄.prev before) first m₄ in set_prev before last m₅

unfoldable pub list_splice : ℕ → ℕ → ℕ → Links → Outcome Links
list_splice before first last m =
    assert (is_interior m before || is_tail m before)
    >> (if first == last then ok m else (do
      last' ← list_prev m last
      assert (is_interior m first)
      assert (is_interior m last')
      ok (move_before before first last' m)))

unfoldable pub list_push_front : KernelList → ℕ → Links → Outcome Links
list_push_front l elem m = list_insert (list_begin l m) elem m

unfoldable pub list_push_back : KernelList → ℕ → Links → Outcome Links
list_push_back l elem m = list_insert (list_end l) elem m

-- The two assignments of list_remove.
abbrev pub unlink : ℕ → Links → Links
unlink elem m =
    let m₁ = set_next (m.prev elem) (m.next elem) m in set_prev (m₁.next elem) (m₁.prev elem) m₁

-- list_remove: the links, and the element that followed.
unfoldable pub list_remove : ℕ → Links → Outcome (Links × ℕ)
list_remove elem m = do assert (is_interior m elem); ok (unlink elem m, (unlink elem m).next elem)

abbrev pub list_empty : KernelList → Links → Bool
list_empty l m = list_begin l m == list_end l

unfoldable pub list_front : KernelList → Links → Outcome ℕ
list_front l m = do assert (not (list_empty l m)); ok (m.next l.head)

unfoldable pub list_back : KernelList → Links → Outcome ℕ
list_back l m = do assert (not (list_empty l m)); ok (m.prev l.tail)

unfoldable pub list_pop_front : KernelList → Links → Outcome (Links × ℕ)
list_pop_front l m = do front ← list_front l m; (m', after) ← list_remove front m; ok (m', front)

unfoldable pub list_pop_back : KernelList → Links → Outcome (Links × ℕ)
list_pop_back l m = do back ← list_back l m; (m', after) ← list_remove back m; ok (m', back)

-- The loop of list_size, whose count is a size_t.
unfoldable pub size_loop : ℕ → KernelList → Links → ℕ → ℕ → Outcome ℕ
size_loop zero l m e cnt = out_of_fuel
size_loop (suc fuel) l m e cnt = elim (e == list_end l) [
  | true ↦ ok cnt
  | false ↦ do e' ← list_next m e; size_loop fuel l m e' ((cnt + 1) % 2 ^ 32)
]

unfoldable pub list_size : ℕ → KernelList → Links → Outcome ℕ
list_size fuel l m = size_loop fuel l m (list_begin l m) 0

-- swap (&e->prev, &e->next)
abbrev pub swap_links : ℕ → Links → Links
swap_links e m = set_next e (m.prev e) (set_prev e (m.next e) m)

unfoldable pub reverse_loop : ℕ → KernelList → ℕ → Links → Outcome Links
reverse_loop zero l e m = out_of_fuel
reverse_loop (suc fuel) l e m = elim (e == list_end l) [
  | true ↦ ok m
  | false ↦ reverse_loop fuel l ((swap_links e m).prev e) (swap_links e m)
]

-- The two swaps at the end of list_reverse.
abbrev pub swap_ends : KernelList → Links → Links
swap_ends l m =
    let m₁ = set_prev l.tail (m.next l.head) (set_next l.head (m.prev l.tail) m) in
    let a = m₁.next l.head in
    let b = m₁.prev l.tail in set_next b (m₁.prev a) (set_prev a (m₁.next b) m₁)

unfoldable pub list_reverse : ℕ → KernelList → Links → Outcome Links
list_reverse fuel l m =
    if list_empty l m
    then ok m
    else (do m' ← reverse_loop fuel l (list_begin l m) m; ok (swap_ends l m'))
