-- ===== src/Mm/Lookup/Installed.antt =====
-- kernel/mm/pframe.c: a frame that is installed, and what a chain of shadow objects sees of it.
use kernel.Base.{
  ℕ, zero, suc, ◌≤◌, ◌≡◌, ◌≢◌, refl, ap, ◌∙◌, subst, Bool, true, false, some, arith, inl, inr,
  ℕ_discrete, Bool-cases, if◌then◌else◌,
}
use kernel.Mm.Cache.{Frame, Cache, is_free, holds, set_busy, set_world}
use kernel.Mm.Frames.Resident.{holds-page}
use kernel.Mm.Frames.Lifetime.{installed}
use kernel.Mm.Lookup.Chains.{Sees}

pub other_page : (o x pagenum : ℕ) (f : Frame) → f.obj ≡ some o → x ≢ o → holds x pagenum f ≡ false
other_page o x pagenum f of other = elim (Bool-cases (holds x pagenum f)) [
  | inl held ↦
      let (mine, _) = holds-page x pagenum f held in absurd (ground (arith, mine, of, other))
  | inr free ↦ free
]

pub if-true {ℓ} : {A : Type ℓ} (b : Bool) (x y : A) → b ≡ true → (if b then x else y) ≡ x
if-true b x y e = rw e refl

module _ {W : Type 0} where
  -- Objects along one chain see a frame after different numbers of steps.
  pub Sees-unique :
      (d e o pagenum pf : ℕ) (s : Cache W) → Sees d o pagenum pf s → Sees e o pagenum pf s → d ≡ e
  Sees-unique zero zero o pagenum pf s x y = refl
  Sees-unique zero (suc e) o pagenum pf s x (_, missing, _) = absurd (ground (arith, missing pf, x))
  Sees-unique (suc d) zero o pagenum pf s (_, missing, _) y = absurd (ground (arith, missing pf, y))
  Sees-unique (suc d) (suc e) o pagenum pf s (_, _, (below, next, x)) (_, _, (below', next', y)) =
      let same : below' ≡ below = ground (arith, next, next') in
      ap suc (Sees-unique d e below pagenum pf s x (subst (λ b. Sees e b pagenum pf s) same y))

  pub Sees-used :
      (d o pagenum pf : ℕ) (s : Cache W) → Sees d o pagenum pf s → is_free (s.frames pf) ≡ false
  Sees-used zero o pagenum pf s held =
      let (of, _) = holds-page o pagenum (s.frames pf) held in rw of refl
  Sees-used (suc d) o pagenum pf s (_, _, (below, _, sees)) = Sees-used d below pagenum pf s sees

  -- The object that sees a frame from further up is not among those below.
  pub apart :
      (e d o x pagenum pf : ℕ) (s : Cache W)
      → Sees (suc d) o pagenum pf s
      → e ≤ d
      → Sees e x pagenum pf s
      → x ≢ o
  apart e d o x pagenum pf s from le sees same =
      let level =
        Sees-unique e (suc d) o pagenum pf s (subst (λ y. Sees e y pagenum pf s) same sees) from in
      absurd (omega (arith, level))

  -- A new page of `o` hides nothing from the objects below it.
  pub Sees-installed :
      (e d o x pagenum pf old : ℕ) (s t : Cache W)
      → ((q : ℕ) → q ≢ pf → t.frames q ≡ s.frames q)
      → (t.frames pf).obj ≡ some o
      → ((p : ℕ) → (t.objects p).kind ≡ (s.objects p).kind)
      → ((p : ℕ) → (t.objects p).shadowed ≡ (s.objects p).shadowed)
      → old ≢ pf
      → Sees (suc d) o pagenum old s
      → e ≤ d
      → Sees e x pagenum old s
      → Sees e x pagenum old t
  Sees-installed zero d o x pagenum pf old s t keeps of kinds below distinct from le sees =
      rw (keeps old distinct) sees
  Sees-installed (suc e) d o x pagenum pf old s t keeps of kinds below distinct from le
        (kind, missing, (y, next, sees)) =
      let other = apart (suc e) d o x pagenum old s from le (kind, missing, (y, next, sees)) in
      (
        kinds x ∙ kind,
        (λ q. elim (ℕ_discrete q pf) [
          | yes new ↦ rw new (other_page o x pagenum (t.frames pf) of other)
          | no old_frame ↦ rw (keeps q old_frame) (missing q)
        ]),
        (
          y,
          below x ∙ next,
          Sees-installed e d o y pagenum pf old s t keeps of kinds below distinct from (omega arith)
              sees,
        ),
      )

  -- A state in which a new busy frame `pf` of `o` waits to be filled.
  abbrev pub Filling : ℕ → ℕ → ℕ → Cache W → Cache W → Type 0
  Filling o pagenum pf s t =
      ((q : ℕ) → q ≢ pf → t.frames q ≡ s.frames q)
      × ((t.frames pf).obj ≡ some o)
      × ((t.frames pf).pagenum ≡ pagenum)
      × ((t.frames pf).busy ≡ true)
      × ((t.frames pf).pincount ≡ 0)
      × ((p : ℕ) → (t.objects p).kind ≡ (s.objects p).kind)
      × ((p : ℕ) → (t.objects p).shadowed ≡ (s.objects p).shadowed)
      × ((p : ℕ) → p ≢ o → t.objects p ≡ s.objects p)

  pub installed-Filling :
      (size o pagenum pf : ℕ) (w : W) (s : Cache W)
      → Filling o pagenum pf s (set_busy pf true (installed size pf o pagenum (set_world w s)))
  installed-Filling size o pagenum pf w s = (
    (λ q other. ground arith),
    ground arith,
    ground arith,
    ground arith,
    ground arith,
    (λ p. ground arith),
    (λ p. ground arith),
    λ p other. ground arith,
  )
