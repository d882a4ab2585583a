-- ===== src/Mm/Frames/Resident.antt =====
-- kernel/mm/pframe.c: `pframe_get_resident` finds a page by the hash table.
use kernel.Base.{
  ℕ, ◌<◌, ◌≡◌, ◌↔◌, refl, sym, ap, ◌∙◌, inl, inr, true, false, List, [], ◌∷◌, Option, none, some,
  ◌==◌, arith, occurs, Bool-cases, Option-cases,
}
use kernel.Mm.Cache.{Frame, Cache, Machine, is_of, holds, bucket_of, hash_page}
use kernel.Mm.Frames.{find_frame, found, touched, pframe_get_resident}
use kernel.Mm.Frames.Invariant.{
  Inv, Indexed, touched-Linked, touched-frames, touched-objects, touched-Indexed,
}

find_frame-some :
    (frames : ℕ → Frame) (o pagenum : ℕ) (l : List ℕ) (pf : ℕ)
    → find_frame frames o pagenum l ≡ some pf
    → holds o pagenum (frames pf) ≡ true
unfolding find_frame
find_frame-some frames o pagenum [] pf h = absurd (ground arith)
find_frame-some frames o pagenum (v ∷ l) pf h = elim (Bool-cases (holds o pagenum (frames v))) [
  | inl here ↦ ground (arith, here)
  | inr later ↦ find_frame-some frames o pagenum l pf (ground (arith, later))
]

find_frame-none :
    (frames : ℕ → Frame) (o pagenum : ℕ) (l : List ℕ) (pf : ℕ)
    → find_frame frames o pagenum l ≡ none
    → 0 < occurs pf l
    → holds o pagenum (frames pf) ≡ false
unfolding find_frame occurs
find_frame-none frames o pagenum [] pf h k = absurd (omega arith)
find_frame-none frames o pagenum (v ∷ l) pf h k = elim (Bool-cases (holds o pagenum (frames v))) [
  | inl here ↦ absurd (ground (arith, here))
  | inr later ↦ elim (Bool-cases (v == pf)) [
    | inl same ↦ ground (arith, later, same)
    | inr apart ↦
        find_frame-none frames o pagenum l pf (ground (arith, later)) (ground (arith, apart))
  ]
]

pub is_of-some : (o : ℕ) (x : Option ℕ) → is_of o x ≡ true → x ≡ some o
is_of-some o none h = absurd (ground arith)
is_of-some o (some p) h = ap some (ground arith)

-- A frame that holds a page has it as its identity.
pub holds-page :
    (o pagenum : ℕ) (f : Frame)
    → holds o pagenum f ≡ true
    → (f.obj ≡ some o) × (f.pagenum ≡ pagenum)
holds-page o pagenum f h = elim (Bool-cases (is_of o f.obj)) [
  | inl of ↦ (is_of-some o f.obj of, ground (arith, of))
  | inr other ↦ absurd (ground (arith, other))
]

-- A frame that holds a page is in the page's chain.
holds-hashed :
    {W : Type 0} (size o pagenum pf : ℕ) (s : Cache W)
    → Indexed size s
    → holds o pagenum (s.frames pf) ≡ true
    → 0 < occurs pf (s.hash (hash_page size o pagenum))
holds-hashed size o pagenum pf s v h =
    let (obj, same) = holds-page o pagenum (s.frames pf) h in
    let b = hash_page size o pagenum in
    let bucket : bucket_of size (s.frames pf).obj (s.frames pf).pagenum ≡ some b =
      rw (obj, same) refl in
    let count : occurs pf (s.hash b) ≡ 1 = v.hashed b pf ∙ (rw bucket (ground arith)) in
    omega (arith, count)

module _ {W : Type 0} where
  first-found : (r : Option ℕ) (s : Cache W) → (found r s).0 ≡ r
  first-found none s = refl
  first-found (some pf) s = refl

  -- Looking for a page changes no frame and no object.
  found-frames : (r : Option ℕ) (s : Cache W) → (found r s).1.frames ≡ s.frames
  found-frames none s = refl
  found-frames (some pf) s = touched-frames pf s

  found-objects : (r : Option ℕ) (s : Cache W) → (found r s).1.objects ≡ s.objects
  found-objects none s = refl
  found-objects (some pf) s = touched-objects pf s

module _ {W : Type 0} (ops : Machine W) where
  -- A look for a page that no frame holds finds nothing and changes nothing.
  pub absent :
      (o pagenum : ℕ) (s : Cache W)
      → ((pf : ℕ) → holds o pagenum (s.frames pf) ≡ false)
      → pframe_get_resident ops o pagenum s ≡ (none, s)
  unfolding pframe_get_resident
  absent o pagenum s no_frame =
      let chain = s.hash (hash_page ops.hash_size o pagenum) in
      elim (Option-cases (find_frame s.frames o pagenum chain)) [
        | inl missing ↦ ap (λ r. found r s) missing
        | inr (pf, e) ↦
            absurd (ground (arith, no_frame pf, find_frame-some s.frames o pagenum chain pf e))
      ]

  -- A look for a page that a frame holds finds the frame.
  pub present :
      (o pagenum pf : ℕ) (s : Cache W)
      → Inv ops.hash_size s
      → holds o pagenum (s.frames pf) ≡ true
      → pframe_get_resident ops o pagenum s ≡ (some pf, touched pf s)
  unfolding pframe_get_resident
  present o pagenum pf s v h =
      let chain = s.hash (hash_page ops.hash_size o pagenum) in
      elim (Option-cases (find_frame s.frames o pagenum chain)) [
        | inl missing ↦ absurd (
            ground (
              arith,
              h,
              find_frame-none s.frames o pagenum chain pf missing
                  (holds-hashed ops.hash_size o pagenum pf s v.indexed h),
            ))
        | inr (pf', e) ↦
            let same : pf' ≡ pf =
              v.indexed.unique pf' pf o pagenum (find_frame-some s.frames o pagenum chain pf' e)
                h in
            ap (λ r. found r s) (e ∙ ap some same)
      ]

  found-Inv :
      (o pagenum : ℕ) (s : Cache W)
      → Inv ops.hash_size s
      → Inv ops.hash_size (pframe_get_resident ops o pagenum s).1
  unfolding pframe_get_resident
  found-Inv o pagenum s v =
      let chain = s.hash (hash_page ops.hash_size o pagenum) in
      elim (Option-cases (find_frame s.frames o pagenum chain)) [
        | inl missing ↦ rw missing v
        | inr (pf, e) ↦
            let (obj, _) =
              holds-page o pagenum (s.frames pf) (find_frame-some s.frames o pagenum chain pf e) in
            rw e (record {
              linked = touched-Linked pf s (rw obj refl) v.linked;
              indexed = touched-Indexed ops.hash_size pf s v.indexed;
            })
      ]

  -- `pframe_get_resident` finds the frame that holds the page, if there is one. It changes no frame
  -- and no object, and keeps the invariant.
  pub resident_iff :
      (o pagenum pf : ℕ) (s : Cache W)
      → Inv ops.hash_size s
      → (((pframe_get_resident ops o pagenum s).0 ≡ some pf)
          ↔ (holds o pagenum (s.frames pf) ≡ true))
        × ((pframe_get_resident ops o pagenum s).1.frames ≡ s.frames)
        × ((pframe_get_resident ops o pagenum s).1.objects ≡ s.objects)
        × Inv ops.hash_size (pframe_get_resident ops o pagenum s).1
  unfolding pframe_get_resident
  resident_iff o pagenum pf s v =
      let r = find_frame s.frames o pagenum (s.hash (hash_page ops.hash_size o pagenum)) in
      (
        (
          (λ e.
              find_frame-some s.frames o pagenum (s.hash (hash_page ops.hash_size o pagenum)) pf
                (sym (first-found r s) ∙ e)),
          λ h. ap (λ p. p.0) (present o pagenum pf s v h),
        ),
        found-frames r s,
        found-objects r s,
        found-Inv o pagenum s v,
      )
