-- ===== src/Vm/Swap/Victim.antt =====
-- vm/swap.c: which frame evict_frame takes.
use pintos_proj.Prelude.{
  ℕ, ◌+◌, ◌^◌, ◌-◌, ◌≤◌, ◌<◌, ◌≡◌, refl, ap, ◌⊎◌, inl, inr, true, false, List, [], ◌∷◌, ◌++◌,
  Option, none, some, ltb, Bool-cases, arith, ok, ◌>>=◌,
}
use pintos_proj.Vm.State.{Vm}
use pintos_proj.Vm.Swap.{acquire_swap_io, oldest, evict, evict_frame}

-- The access time of the page in a frame.
abbrev pub time_of : Vm → ℕ → ℕ
time_of s e = (s.page_entries (s.frame_entries e).aux).access_time

-- Every frame of a list has at least, or more than, a time.
abbrev pub AllFrom : Vm → ℕ → List ℕ → Type 0
AllFrom s t [] = Unit
AllFrom s t (e ∷ es) = (t ≤ time_of s e) × AllFrom s t es

-- The first of the frames of a list that have the least access time.
pub record IsFirstOldest (s : Vm) (es : List ℕ) (e : ℕ) : Type 0 where
  pub before : List ℕ
  pub after : List ℕ
  pub parts : es ≡ before ++ (e ∷ after)
  pub earlier : AllFrom s (time_of s e + 1) before
  pub later : AllFrom s (time_of s e) after

-- With no frame that has less than a time, or with one, which the loop finds.
oldest-IsFirstOldest :
    (es : List ℕ) (t : ℕ) (r : Option ℕ) (s : Vm)
    → ((oldest es t r s ≡ r) × AllFrom s t es)
      ⊎ ((e : ℕ) × (oldest es t r s ≡ some e) × (time_of s e < t) × IsFirstOldest s es e)
unfolding oldest
oldest-IsFirstOldest [] t r s = inl (refl, tt)
oldest-IsFirstOldest (x ∷ xs) t r s = elim (Bool-cases (ltb (time_of s x) t)) [
  | inl u ↦ inr (elim (oldest-IsFirstOldest xs (time_of s x) (some x) s) [
    | inl (q, all) ↦ (
      x,
      rw u q,
      ground (arith, u),
      record { before = []; after = xs; parts = refl; earlier = tt; later = all },
    )
    | inr (e, q, less, p) ↦ (
      e,
      rw u q,
      ground (arith, u, less),
      record {
        before = x ∷ p.before;
        after = p.after;
        parts = ap (◌∷◌ x) p.parts;
        earlier = (omega (arith, less), p.earlier);
        later = p.later;
      },
    )
  ])
  | inr u ↦ elim (oldest-IsFirstOldest xs t r s) [
    | inl (q, all) ↦ inl (rw u q, (ground (arith, u), all))
    | inr (e, q, less, p) ↦ inr (
      e,
      rw u q,
      less,
      record {
        before = x ∷ p.before;
        after = p.after;
        parts = ap (◌∷◌ x) p.parts;
        earlier = (ground (arith, u, less), p.earlier);
        later = p.later;
      },
    )
  ]
]

-- Where the lock is free, evict_frame takes it. If each frame of the table has the greatest access time
-- that there is, or the table is empty, it returns false. Otherwise some frame has a smaller one, and it
-- takes out the first of the frames that have the least access time.
pub evict_frame-IsFirstOldest :
    (s : Vm)
    → s.swap_io_holder ≡ none
    → ((evict_frame s ≡ ok (some (record s { swap_io_holder = some s.current_thread }, false)))
        × AllFrom s (2 ^ 64 - 1) s.frame_table)
      ⊎ ((e : ℕ) × IsFirstOldest s s.frame_table e
          × (time_of s e < 2 ^ 64 - 1)
          × (evict_frame s ≡ (
              evict e (record s { swap_io_holder = some s.current_thread }) >>= λ s'.
              ok (some (s', true)))))
unfolding evict_frame acquire_swap_io
evict_frame-IsFirstOldest s free =
    let s₁ = record s { swap_io_holder = some s.current_thread } in
    elim (oldest-IsFirstOldest s.frame_table (2 ^ 64 - 1) none s₁) [
      | inl (q, all) ↦ inl (rw (free, ◌>>=◌, q) refl, all)
      | inr (e, q, less, p) ↦ inr (
        e,
        record {
          before = p.before;
          after = p.after;
          parts = p.parts;
          earlier = p.earlier;
          later = p.later;
        },
        less,
        rw (free, ◌>>=◌, q) refl,
      )
    ]
