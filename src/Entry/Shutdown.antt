-- ===== src/Entry/Shutdown.antt =====
-- src/main.rs: what the loop that joins the tasks leaves and logs.
use matchmaker.Base.{ap, ◌++◌, ℕ, zero, suc, ◌-◌, ◌≡◌, refl, Bool, List, [], ◌∷◌, length, arith}
use matchmaker.Entry.{last_of_join, Notice, task_panicked, Joined, exited, panicked, join_tasks}

-- Each task that ends before the deadline is joined, the others are left.
join_tasks-remaining :
    (late : Bool) (n : ℕ) (js : List Joined) → (join_tasks late n js).1 ≡ n - length js
unfolding join_tasks
join_tasks-remaining late zero js = omega arith
join_tasks-remaining late (suc n) [] = omega arith
join_tasks-remaining late (suc n) (exited ∷ js) = omega (arith, join_tasks-remaining late n js)
join_tasks-remaining late (suc n) (panicked ∷ js) = omega (arith, join_tasks-remaining late n js)

-- The panics among the first tasks that end.
abbrev pub panics : ℕ → List Joined → List Notice
panics zero js = []
panics (suc n) [] = []
panics (suc n) (exited ∷ js) = panics n js
panics (suc n) (panicked ∷ js) = task_panicked ∷ panics n js

join_tasks-notices :
    (late : Bool) (n : ℕ) (js : List Joined)
    → (join_tasks late n js).0 ≡ panics n js ++ last_of_join late (n - length js)
unfolding join_tasks
join_tasks-notices late zero js =
    let none_left : 0 - length js ≡ 0 = omega arith in rw none_left refl
join_tasks-notices late (suc n) [] =
    let all_left : suc n - 0 ≡ suc n = omega arith in rw all_left refl
join_tasks-notices late (suc n) (exited ∷ js) =
    let less : suc n - suc (length js) ≡ n - length js = omega arith in
    rw less (join_tasks-notices late n js)
join_tasks-notices late (suc n) (panicked ∷ js) =
    let less : suc n - suc (length js) ≡ n - length js = omega arith in
    rw less (ap (λ ns. task_panicked ∷ ns) (join_tasks-notices late n js))
