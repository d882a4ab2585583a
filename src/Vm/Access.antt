-- ===== src/Vm/Access.antt =====
-- kernel/api/access.c: `addr_perm` and `range_perm`, which check what a process may do at addresses.
-- A page has 4096 bytes.
use Prim.Native.Nat.{bit_and}
use kernel.Base.{
  ℕ, zero, suc, ◌+◌, ◌-◌, ◌*◌, ◌/◌, ◌%◌, ◌^◌, ◌≤◌, ◌<◌, ◌≡◌, inl, inr, refl, ap, sym, ◌∙◌,
  ℕ_discrete, Bool, true, false, Option, none, some, leb, ◌==◌, if◌then◌else◌, add32, sub32, arith,
  Bool-cases,
}
use kernel.Vm.Area.{Area, AreaList, vmmap_lookup}

abbrev pub allows : ℕ → Option Area → Bool
allows perm none = false
allows perm (some vma) = bit_and vma.prot perm == perm

-- `addr_perm`
unfoldable pub addr_perm : AreaList → ℕ → ℕ → Bool
addr_perm m vaddr perm = allows perm (vmmap_lookup m (vaddr / 4096))

-- The loop of `range_perm` from the page `i`, with a bound on its rounds.
unfoldable pub check_pages : ℕ → AreaList → ℕ → ℕ → ℕ → Option Bool
check_pages zero m perm i endvfn = none
check_pages (suc rounds) m perm i endvfn =
    let rest = check_pages rounds m perm (i + 1) endvfn in
    if leb i endvfn then if addr_perm m (i * 4096) perm then rest else some false else some true

-- `endvfn`
unfoldable pub last_page : ℕ → ℕ → ℕ
unfolding add32 sub32
last_page avaddr len = sub32 (add32 avaddr len) 1 / 4096

-- `range_perm`; the loop runs at most once for each page up to the last, and once more to end.
unfoldable pub range_perm : AreaList → ℕ → ℕ → ℕ → Option Bool
unfolding check_pages last_page
range_perm m avaddr len perm =
    let endvfn = last_page avaddr len in check_pages (endvfn + 2) m perm (avaddr / 4096) endvfn

-- Whether every page from `i` to `endvfn` may be used.
abbrev PagesAllow : AreaList → ℕ → ℕ → ℕ → Type 0
PagesAllow m perm i endvfn = (p : ℕ) → i ≤ p → p ≤ endvfn → allows perm (vmmap_lookup m p) ≡ true

addr_perm-page :
    (m : AreaList) (perm i : ℕ) → addr_perm m (i * 4096) perm ≡ allows perm (vmmap_lookup m i)
unfolding addr_perm
addr_perm-page m perm i =
    let page : (i * 4096) / 4096 ≡ i = omega arith in ap (λ p. allows perm (vmmap_lookup m p)) page

first_allows :
    (m : AreaList) (perm i endvfn : ℕ)
    → allows perm (vmmap_lookup m i) ≡ true
    → PagesAllow m perm (i + 1) endvfn
    → PagesAllow m perm i endvfn
first_allows m perm i endvfn first rest p ge le = elim (ℕ_discrete p i) [
  | yes same ↦ rw same first
  | no apart ↦ rest p (omega arith) le
]

last_page-small :
    (avaddr len : ℕ)
    → 0 < len
    → avaddr + len ≤ 2 ^ 32
    → last_page avaddr len ≡ (avaddr + len - 1) / 4096
unfolding last_page add32 sub32
last_page-small avaddr len pos fits =
    let same : ((avaddr + len) % 2 ^ 32 + 2 ^ 32 - 1) % 2 ^ 32 ≡ avaddr + len - 1 = omega arith in
    ap (λ a. a / 4096) same

-- The loop ends, and says whether all the pages allow the access.
check_pages_lem :
    (rounds : ℕ) (m : AreaList) (perm i endvfn : ℕ)
    → endvfn + 1 < rounds + i
    → 0 < rounds
    → (b : Bool) × (check_pages rounds m perm i endvfn ≡ some b)
      × (b ≡ true → PagesAllow m perm i endvfn)
      × (PagesAllow m perm i endvfn → b ≡ true)
unfolding check_pages
check_pages_lem zero m perm i endvfn h pos = absurd (omega arith)
check_pages_lem (suc rounds) m perm i endvfn h pos = elim (Bool-cases (leb i endvfn)) [
  | inr over ↦ (true, rw over refl, (λ _ p ge le. absurd (ground arith)), λ _. refl)
  | inl more ↦ elim (Bool-cases (addr_perm m (i * 4096) perm)) [
    | inr denied ↦ (
      false,
      rw (more, denied) refl,
      (λ e. absurd (ground arith)),
      λ all. ground (arith, all i, addr_perm-page m perm i),
    )
    | inl allowed ↦
        let (b, rest, to, from) =
          check_pages_lem rounds m perm (i + 1) endvfn (omega arith) (ground arith) in
        (
          b,
          rw (more, allowed) rest,
          (λ e. first_allows m perm i endvfn (ground (arith, addr_perm-page m perm i)) (to e)),
          λ all. from (λ p ge le. all p (omega arith) le),
        )
  ]
]

-- Every page that a range meets has an address in the range.
page_address :
    (m : AreaList) (avaddr len perm p : ℕ)
    → 0 < len
    → ((a : ℕ) → avaddr ≤ a → a < avaddr + len → addr_perm m a perm ≡ true)
    → avaddr / 4096 ≤ p
    → p * 4096 < avaddr + len
    → allows perm (vmmap_lookup m p) ≡ true
unfolding addr_perm
page_address m avaddr len perm p pos all ge lt = elim (ℕ_discrete p (avaddr / 4096)) [
  | yes first ↦ rw first (all avaddr (omega arith) (omega arith))
  | no later ↦ sym (addr_perm-page m perm p) ∙ all (p * 4096) (omega arith) lt
]

-- `range_perm` ends. For a range that is not empty and does not reach beyond 2^32 it returns 1 if
-- `addr_perm` allows the access at every address of the range, and only then.
pub range_perm_addresses :
    (m : AreaList) (avaddr len perm : ℕ)
    → 0 < len
    → avaddr + len ≤ 2 ^ 32
    → (b : Bool) × (range_perm m avaddr len perm ≡ some b)
      × (b ≡ true → (a : ℕ) → avaddr ≤ a → a < avaddr + len → addr_perm m a perm ≡ true)
      × (((a : ℕ) → avaddr ≤ a → a < avaddr + len → addr_perm m a perm ≡ true) → b ≡ true)
unfolding range_perm addr_perm
range_perm_addresses m avaddr len perm pos fits =
    let last = last_page-small avaddr len pos fits in
    let endvfn = last_page avaddr len in
    let (b, done, to, from) =
      check_pages_lem (endvfn + 2) m perm (avaddr / 4096) endvfn (omega arith) (omega arith) in
    (
      b,
      done,
      (λ e a ge lt. to e (a / 4096) (omega arith) (omega (arith, last))),
      λ all. from (λ p ge le. page_address m avaddr len perm p pos all ge (omega (arith, last))),
    )

-- A range that reaches beyond 2^32, to an earlier page than its first, is allowed whatever is mapped:
-- no page is checked.
pub range_perm_wraps :
    (m : AreaList) (avaddr len perm : ℕ)
    → last_page avaddr len < avaddr / 4096
    → range_perm m avaddr len perm ≡ some true
unfolding range_perm
range_perm_wraps m avaddr len perm before =
    let (b, done, _, from) =
      check_pages_lem (last_page avaddr len + 2) m perm (avaddr / 4096) (last_page avaddr len)
        (omega arith) (omega arith) in
    done ∙ ap some (from (λ p ge le. absurd (omega arith)))
