-- ===== src/Base/Links.antt =====
-- Lists of numbers that stand for the kernel's linked lists: removal, and how often an item is linked.
use Prim.Native.Nat.{ℕ, ◌+◌, ◌-◌, ◌≤◌, ◌<◌}
use mathlib.Core.Path.{◌≡◌, refl}
use mathlib.Core.List.{List, [], ◌∷◌, ◌++◌}
use native.Mathlib.Omega.{arith}
use native.Mathlib.Decide.{ℕ_discrete}
use kernel.Base.Tests.{◌==◌, if◌then◌else◌}
use kernel.Base.Lists.{length}

-- `list_remove` of an item that is on the list.
unfoldable pub remove_item : ℕ → List ℕ → List ℕ
remove_item t [] = []
remove_item t (u ∷ rest) = if u == t then rest else u ∷ remove_item t rest

-- How often an item stands in a list.
unfoldable pub occurs : ℕ → List ℕ → ℕ
occurs t [] = 0
occurs t (u ∷ rest) = (if u == t then 1 else 0) + occurs t rest

pub occurs-remove_item :
    (t u : ℕ) (l : List ℕ) → occurs u (remove_item t l) ≡ occurs u l - (if t == u then 1 else 0)
unfolding occurs remove_item
occurs-remove_item t u [] = omega arith
occurs-remove_item t u (v ∷ l) = ground (arith, occurs-remove_item t u l)

pub occurs-le-length : (t : ℕ) (l : List ℕ) → occurs t l ≤ length l
unfolding occurs
occurs-le-length t [] = omega arith
occurs-le-length t (v ∷ l) = ground (arith, occurs-le-length t l)

pub length-remove_item :
    (t : ℕ) (l : List ℕ) → 0 < occurs t l → length (remove_item t l) ≡ length l - 1
unfolding occurs remove_item
length-remove_item t [] h = omega arith
length-remove_item t (v ∷ l) h = ground (arith, length-remove_item t l, occurs-le-length t l)

pub occurs-append : (t : ℕ) (l m : List ℕ) → occurs t (l ++ m) ≡ occurs t l + occurs t m
unfolding occurs
occurs-append t [] m = omega arith
occurs-append t (v ∷ l) m = omega (arith, occurs-append t l m)

-- The link before the list's head: the last entry, and the list without it.
unfoldable pub take_last : ℕ → List ℕ → ℕ × List ℕ
take_last t [] = (t, [])
take_last t (u ∷ rest) = let (last, front) = take_last u rest in (last, t ∷ front)

pub occurs-take_last :
    (t u : ℕ) (rest : List ℕ)
    → occurs t (take_last u rest).1 + (if (take_last u rest).0 == t then 1 else 0)
      ≡ occurs t (u ∷ rest)
unfolding occurs take_last
occurs-take_last t u [] = omega arith
occurs-take_last t u (v ∷ rest) = omega (arith, occurs-take_last t v rest)

pub length-take_last : (u : ℕ) (rest : List ℕ) → length (take_last u rest).1 ≡ length rest
unfolding take_last
length-take_last u [] = refl
length-take_last u (v ∷ rest) = omega (arith, length-take_last v rest)

pub remove_item-append : (t : ℕ) (l : List ℕ) → occurs t l ≡ 0 → remove_item t (l ++ (t ∷ [])) ≡ l
unfolding occurs remove_item
remove_item-append t [] h = ground arith
remove_item-append t (v ∷ l) h = elim (ℕ_discrete v t) [
  | yes same ↦ absurd (ground arith)
  | no apart ↦ ground (arith, remove_item-append t l (ground arith))
]
