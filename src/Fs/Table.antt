-- ===== src/Fs/Table.antt =====
-- kernel/fs/open.c: `p_files`, the descriptors of a process.
use kernel.Base.{
  ℕ, zero, suc, ◌+◌, ◌<◌, ◌≡◌, ◌≢◌, inl, inr, refl, ap, List, [], ◌∷◌, Option, none, some, ◌==◌,
  if◌then◌else◌, arith, length, Option-cases,
}

-- For each descriptor the number of its open file, none for NULL.
abbrev pub Table : Type 0
Table = List (Option ℕ)

unfoldable pub entry : ℕ → Table → Option ℕ
entry fd [] = none
entry zero (f ∷ rest) = f
entry (suc fd) (f ∷ rest) = entry fd rest

unfoldable pub set_entry : ℕ → Option ℕ → Table → Table
set_entry fd x [] = []
set_entry zero x (f ∷ rest) = x ∷ rest
set_entry (suc fd) x (f ∷ rest) = f ∷ set_entry fd x rest

abbrev pub next_fd : Option ℕ → Option ℕ
next_fd none = none
next_fd (some fd) = some (suc fd)

-- `get_empty_fd`; none is -EMFILE.
unfoldable pub get_empty_fd : Table → Option ℕ
get_empty_fd [] = none
get_empty_fd (none ∷ rest) = some 0
get_empty_fd (some f ∷ rest) = next_fd (get_empty_fd rest)

-- 1 if the descriptor is one of the file `f`.
abbrev pub one : ℕ → Option ℕ → ℕ
one f none = 0
one f (some g) = if g == f then 1 else 0

-- How many descriptors a file has.
unfoldable pub descriptors : ℕ → Table → ℕ
descriptors f [] = 0
descriptors f (x ∷ rest) = one f x + descriptors f rest

pub length-set_entry : (fd : ℕ) (x : Option ℕ) (l : Table) → length (set_entry fd x l) ≡ length l
unfolding set_entry
length-set_entry fd x [] = refl
length-set_entry zero x (f ∷ l) = refl
length-set_entry (suc fd) x (f ∷ l) = ap suc (length-set_entry fd x l)

pub descriptors-set_entry :
    (f fd : ℕ) (x : Option ℕ) (l : Table)
    → fd < length l
    → descriptors f (set_entry fd x l) + one f (entry fd l) ≡ descriptors f l + one f x
unfolding descriptors set_entry entry
descriptors-set_entry f fd x [] h = absurd (omega arith)
descriptors-set_entry f zero x (y ∷ l) h = omega arith
descriptors-set_entry f (suc fd) x (y ∷ l) h =
    omega (arith, descriptors-set_entry f fd x l (omega arith))

pub entry-set_entry :
    (fd i : ℕ) (x : Option ℕ) (l : Table)
    → fd < length l
    → entry i (set_entry fd x l) ≡ (if fd == i then x else entry i l)
unfolding set_entry entry
entry-set_entry fd i x [] h = absurd (omega arith)
entry-set_entry zero zero x (y ∷ l) h = refl
entry-set_entry zero (suc i) x (y ∷ l) h = ground arith
entry-set_entry (suc fd) zero x (y ∷ l) h = ground arith
entry-set_entry (suc fd) (suc i) x (y ∷ l) h =
    ground (arith, entry-set_entry fd i x l (omega arith))

pub entry-length : (fd f : ℕ) (l : Table) → entry fd l ≡ some f → fd < length l
unfolding entry
entry-length fd f [] h = absurd (ground arith)
entry-length zero f (y ∷ l) h = omega arith
entry-length (suc fd) f (y ∷ l) h = omega (arith, entry-length fd f l h)

below :
    (j f : ℕ) (l : Table)
    → ((i : ℕ) → i < j → entry i l ≢ none)
    → (i : ℕ) → i < suc j
    → entry i (some f ∷ l) ≢ none
unfolding entry
below j f l lower zero h e = ground arith
below j f l lower (suc i) h e = lower i (omega arith) e

-- The descriptor of `get_empty_fd` is the lowest one that is free.
pub get_empty_fd-lowest :
    (fd : ℕ) (l : Table)
    → get_empty_fd l ≡ some fd
    → (fd < length l) × (entry fd l ≡ none) × ((i : ℕ) → i < fd → entry i l ≢ none)
unfolding get_empty_fd entry
get_empty_fd-lowest fd [] h = absurd (ground arith)
get_empty_fd-lowest zero (none ∷ l) h = (omega arith, refl, λ i k. absurd (omega arith))
get_empty_fd-lowest (suc fd) (none ∷ l) h = absurd (ground arith)
get_empty_fd-lowest fd (some f ∷ l) h = elim (Option-cases (get_empty_fd l)) [
  | inl full ↦ absurd (ground arith)
  | inr (j, found) ↦
      let (lt, free, lower) = get_empty_fd-lowest j l found in
      let fd_eq : suc j ≡ fd = ground arith in rw (← fd_eq) (omega arith, free, below j f l lower)
]

-- Without a result of `get_empty_fd`, no descriptor is free.
pub get_empty_fd-full :
    (l : Table) → get_empty_fd l ≡ none → (i : ℕ) → i < length l → entry i l ≢ none
unfolding get_empty_fd entry
get_empty_fd-full [] h i lt e = omega arith
get_empty_fd-full (none ∷ l) h i lt e = ground arith
get_empty_fd-full (some f ∷ l) h zero lt e = ground arith
get_empty_fd-full (some f ∷ l) h (suc i) lt e = get_empty_fd-full l (ground arith) i (omega arith) e
