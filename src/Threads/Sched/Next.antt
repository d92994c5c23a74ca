-- ===== src/Threads/Sched/Next.antt =====
-- Which thread next_thread_to_run chooses.
use pintos_proj.Prelude.{
  ℕ, ◌≡◌, refl, ◌∙◌, ap, ◌≢◌, ◌⊎◌, inl, inr, Option, none, some, List, [], ◌∷◌, ◌++◌, arith,
  Outcome, ok, panic,
}
use pintos_proj.Prelude.Int.{ℤ, pos, negsuc, ◌≤ℤ◌, ◌<ℤ◌}
use pintos_proj.Threads.State.{Kernel, remove}
use pintos_proj.Threads.Highest.{scan_cases, IsFirstHighest, AllLt, AllLe}
use pintos_proj.Threads.Queues.{NotIn, remove-split}
use pintos_proj.Threads.Sched.{priority_of, choose, next_thread_to_run}

AllLt-NotIn : (prio : ℕ → ℤ) (t : ℕ) (xs : List ℕ) → AllLt prio (prio t) xs → NotIn t xs
AllLt-NotIn prio t [] a = tt
AllLt-NotIn prio t (x ∷ xs) a = (
  (λ (e : x ≡ t). let h : prio t <ℤ prio t = rw e at a.0 in absurd (omega arith)),
  AllLt-NotIn prio t xs a.1,
)

-- Removing the earliest highest entry leaves the list before it and after it.
pub remove-first_highest :
    (prio : ℕ → ℤ) (t : ℕ) (xs : List ℕ) (f : IsFirstHighest prio xs t)
    → remove t xs ≡ f.before ++ f.after
remove-first_highest prio t xs f =
    ap (remove t) f.split ∙ remove-split t f.before f.after (AllLt-NotIn prio t f.before f.above)

-- What `choose` may come to at the ready list `xs`.
abbrev pub NextCases : Kernel → List ℕ → Outcome (Option ℕ × Kernel) → Type 0
NextCases k xs r =
    ((xs ≡ []) × (r ≡ ok (k.idle_thread, k)))
    ⊎ (((xs ≢ []) × AllLe (priority_of k) (negsuc 0) xs × (r ≡ panic))
        ⊎ ((t : ℕ) × (f : IsFirstHighest (priority_of k) xs t) × (pos 0 ≤ℤ priority_of k t)
            × (r ≡ ok (some t, record k { ready_list = f.before ++ f.after }))))

choose_cases : (xs : List ℕ) (k : Kernel) → NextCases k xs (choose xs k)
unfolding choose
choose_cases [] k = inl (refl, refl)
choose_cases (x ∷ xs) k = elim (scan_cases (priority_of k) (x ∷ xs) (negsuc 0) none) [
  | inl (le, e) ↦ inr (inl ((λ c. cc), le, rw (e, choose)))
  | inr (t, e, lt, f) ↦ inr (
      inr (
        t,
        f,
        omega arith,
        rw (e, choose) (rw (remove-first_highest (priority_of k) t (x ∷ xs) f)),
      ))
]

-- next_thread_to_run returns the idle thread and the state as it was if no thread is ready. If the
-- highest priority of a ready thread is at least 0, it returns the earliest thread of that
-- priority in the ready list, and leaves the list without that entry. If all ready threads have
-- negative priorities it fails the assertion of list_remove.
pub next_thread_to_run_cases : (k : Kernel) → NextCases k k.ready_list (next_thread_to_run k)
unfolding next_thread_to_run
next_thread_to_run_cases k = choose_cases k.ready_list k
