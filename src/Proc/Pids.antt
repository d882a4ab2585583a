-- ===== src/Proc/Pids.antt =====
-- kernel/proc/proc.c: `_proc_getid`, the number of a new process.
use native.Mathlib.Nat.{mod-eq_of_lt, mod_self}
use kernel.Base.{
  ℕ, zero, suc, ◌+◌, ◌-◌, ◌<◌, ◌≡◌, ◌≢◌, ◌%◌, ◌⊎◌, inl, inr, refl, subst, Bool, true, false, List,
  [], ◌∷◌, Option, none, some, ◌==◌, ◌||◌, ◌&&◌, ℕ_discrete, if◌then◌else◌, arith, Bool-cases, ltb,
  leb,
}

-- Whether a process on `_proc_list` has this number.
unfoldable pub is_taken : ℕ → List ℕ → Bool
is_taken pid [] = false
is_taken pid (p ∷ rest) = (p == pid) || is_taken pid rest

-- The loop, with a bound on its rounds; the outer none says that the bound was too small, the inner
-- one stands for -1.
unfoldable pub search : ℕ → ℕ → ℕ → ℕ → List ℕ → Option (Option ℕ)
unfolding is_taken
search max next zero pid pids = none
search max next (suc rounds) pid pids =
    let pid' = (pid + 1) % max in
    let rest = search max next rounds pid' pids in
    if is_taken pid pids then if pid' == next then some none else rest else some (some pid)

-- `next_pid` afterwards.
abbrev pub next_after : ℕ → ℕ → Option ℕ → ℕ
next_after max next none = next
next_after max next (some pid) = (pid + 1) % max

-- `_proc_getid`, with PROC_MAX_COUNT for `max`: each number is tried once. The result comes with the
-- new `next_pid`.
unfoldable pub proc_getid : ℕ → ℕ → List ℕ → Option (Option ℕ × ℕ)
unfolding search
proc_getid max next pids = elim (search max next max next pids) [
  | none ↦ none
  | some o ↦ some (o, next_after max next o)
]

-- The next number in the cycle.
succ_mod : (pid max : ℕ) → pid < max → (pid + 1) % max ≡ (if (pid + 1) == max then 0 else pid + 1)
succ_mod pid max lt = elim (Bool-cases ((pid + 1) == max)) [
  | inl end ↦
      let same : pid + 1 ≡ max = ground arith in
      rw end (subst (λ x. (pid + 1) % x ≡ 0) same (mod_self (pid + 1)))
  | inr below ↦ rw below (mod-eq_of_lt (ground arith))
]

-- How many numbers have been tried before `pid`.
abbrev tried : ℕ → ℕ → ℕ → ℕ
tried max next pid = if leb next pid then pid - next else pid + max - next

-- Whether `j` comes before `pid` in the cycle that starts at `next`.
abbrev before : ℕ → ℕ → ℕ → Bool
before next pid j = if leb next pid then leb next j && ltb j pid else (leb next j || ltb j pid)

abbrev pub Found : ℕ → List ℕ → Option ℕ → Type 0
Found max pids none = (j : ℕ) → j < max → is_taken j pids ≡ true
Found max pids (some pid) = (pid < max) × (is_taken pid pids ≡ false)

abbrev Next : ℕ → ℕ → ℕ → Type 0
Next max pid q = q ≡ (if (pid + 1) == max then 0 else pid + 1)

tried_step :
    (max next pid q : ℕ)
    → next < max
    → pid < max
    → Next max pid q
    → q ≢ next
    → tried max next q ≡ tried max next pid + 1
tried_step max next pid q nm pm e ne = ground arith

before_step :
    (max next pid q j : ℕ)
    → next < max
    → pid < max
    → j < max
    → Next max pid q
    → q ≢ next
    → before next q j ≡ true
    → (j ≡ pid) ⊎ (before next pid j ≡ true)
before_step max next pid q j nm pm jm e ne b = elim (ℕ_discrete j pid) [
  | yes same ↦ inl same
  | no apart ↦ inr (ground arith)
]

before_end :
    (max next pid q j : ℕ)
    → next < max
    → pid < max
    → j < max
    → Next max pid q
    → q ≡ next
    → (j ≡ pid) ⊎ (before next pid j ≡ true)
before_end max next pid q j nm pm jm e back = elim (ℕ_discrete j pid) [
  | yes same ↦ inl same
  | no apart ↦ inr (ground arith)
]

search-Found :
    (max next rounds pid : ℕ) (pids : List ℕ)
    → next < max
    → pid < max
    → tried max next pid + rounds ≡ max
    → ((j : ℕ) → j < max → before next pid j ≡ true → is_taken j pids ≡ true)
    → (o : Option ℕ) × (search max next rounds pid pids ≡ some o) × Found max pids o
unfolding search
search-Found max next zero pid pids nm pm e h = absurd (ground arith)
search-Found max next (suc rounds) pid pids nm pm e h =
    let step = succ_mod pid max pm in
    let q : ℕ = (pid + 1) % max in
    let is_used : (used : is_taken pid pids ≡ true) (j : ℕ)
        → j < max
        → (j ≡ pid) ⊎ (before next pid j ≡ true)
        → is_taken j pids ≡ true =
      λ used j lt w. elim w [ inl same ↦ rw same used | inr b ↦ h j lt b ] in
    elim (Bool-cases (is_taken pid pids)) [
      | inr free ↦ (some pid, rw free refl, (pm, free))
      | inl used ↦ elim (Bool-cases (q == next)) [
        | inl back ↦ (
          none,
          rw (used, back) refl,
          λ j lt. is_used used j lt (before_end max next pid q j nm pm lt step (ground arith)),
        )
        | inr onward ↦
            let (o, found, fresh) =
              search-Found max next rounds q pids nm (ground (arith, step))
                (ground (arith, tried_step max next pid q nm pm step))
                (λ j lt b.
                  is_used used j lt
                    (before_step max next pid q j nm pm lt step (ground arith) b)) in
            (o, rw (used, onward) found, fresh)
      ]
    ]

next_after_lt :
    (max next : ℕ) (pids : List ℕ) (o : Option ℕ)
    → next < max
    → Found max pids o
    → next_after max next o < max
next_after_lt max next pids none lt f = lt
next_after_lt max next pids (some pid) lt f = ground (arith, succ_mod pid max f.0)

-- `_proc_getid` ends, and gives a number below PROC_MAX_COUNT that no process has, or -1, and then
-- all the numbers are taken; `next_pid` stays below PROC_MAX_COUNT.
pub getid_fresh :
    (max next : ℕ) (pids : List ℕ)
    → next < max
    → (o : Option ℕ) × (next' : ℕ) × (proc_getid max next pids ≡ some (o, next'))
      × Found max pids o
      × (next' < max)
unfolding proc_getid
getid_fresh max next pids nm =
    let (o, found, fresh) =
      search-Found max next max next pids nm nm (ground arith) (λ j lt b. absurd (ground arith)) in
    (
      o,
      next_after max next o,
      rw (found, proc_getid) refl,
      fresh,
      next_after_lt max next pids o nm fresh,
    )
