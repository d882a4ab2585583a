-- ===== src/Mm/Frames/Pinning.antt =====
-- kernel/mm/pframe.c: `pframe_pin` and `pframe_unpin` move a frame between the two lists.
use kernel.Base.{
  ℕ, ◌+◌, ◌-◌, ◌<◌, ◌≡◌, refl, true, false, List, [], ◌∷◌, some, ◌==◌, arith, Bool-cases, inl, inr,
  occurs, occurs-append, occurs-remove_item, length-append, length-remove_item, remove_item-append,
  occurs-le-length,
}
use kernel.Mm.Cache.{Cache, is_free, is_pinned}
use kernel.Mm.Frames.{
  is_empty, touched, set_pincount, to_pinned, to_allocated, pframe_pin, pframe_unpin,
}
use kernel.Mm.Frames.Invariant.{Linked, Indexed, Inv, same-Indexed}

pub occurs-not_empty : (pf : ℕ) (l : List ℕ) → 0 < occurs pf l → is_empty l ≡ false
unfolding occurs
occurs-not_empty pf [] h = absurd (omega arith)
occurs-not_empty pf (v ∷ l) h = refl

module _ {W : Type 0} where
  -- Another pin of a pinned frame, or all but the last unpin.
  pub recount-Linked :
      (pf n : ℕ) (s : Cache W)
      → is_pinned (s.frames pf) ≡ true
      → 0 < n
      → Linked s
      → Linked (set_pincount pf n s)
  recount-Linked pf n s held pos v = record {
    allocated = λ q. ground (arith, v.allocated q);
    pinned = λ q. ground (arith, v.pinned q);
    alloc_count = v.alloc_count;
    pin_count = v.pin_count;
  }

  pub to_pinned-Linked :
      (pf : ℕ) (s : Cache W)
      → is_free (s.frames pf) ≡ false
      → is_pinned (s.frames pf) ≡ false
      → Linked s
      → Linked (set_pincount pf ((s.frames pf).pincount + 1) (to_pinned pf s))
  unfolding occurs
  to_pinned-Linked pf s used loose v = record {
    allocated =
        λ q. ground (arith, v.allocated q, v.allocated pf, occurs-remove_item pf q s.alloc_list);
    pinned = λ q. ground (arith, v.pinned q, v.pinned pf, occurs-append q s.pinned_list (pf ∷ []));
    alloc_count = ground (arith, v.alloc_count, v.allocated pf, length-remove_item pf s.alloc_list);
    pin_count = omega (arith, v.pin_count, length-append s.pinned_list (pf ∷ []));
  }

  pub to_allocated-Linked :
      (pf : ℕ) (s : Cache W)
      → is_free (s.frames pf) ≡ false
      → is_pinned (s.frames pf) ≡ true
      → Linked s
      → Linked (to_allocated pf (set_pincount pf 0 s))
  unfolding occurs
  to_allocated-Linked pf s used held v = record {
    allocated =
        λ q. ground (arith, v.allocated q, v.allocated pf, occurs-append q s.alloc_list (pf ∷ []));
    pinned = λ q. ground (arith, v.pinned q, v.pinned pf, occurs-remove_item pf q s.pinned_list);
    alloc_count = omega (arith, v.alloc_count, length-append s.alloc_list (pf ∷ []));
    pin_count = ground (arith, v.pin_count, v.pinned pf, length-remove_item pf s.pinned_list);
  }

  pub repinned-Indexed :
      (size pf n : ℕ) (s : Cache W) → Indexed size s → Indexed size (set_pincount pf n s)
  repinned-Indexed size pf n s v =
      same-Indexed size s (set_pincount pf n s) refl refl (λ q. ground arith) (λ q. ground arith) v

  -- `pframe_pin` of a frame in use fails no assertion, and no branch of it leaves the frame unpinned.
  pub pframe_pin-Inv :
      (size pf : ℕ) (s : Cache W)
      → is_free (s.frames pf) ≡ false
      → Inv size s
      → (s1 : Cache W) × (pframe_pin pf s ≡ some s1)
        × Inv size s1
        × (s1.frames ≡ (set_pincount pf ((s.frames pf).pincount + 1) s).frames)
        × (s1.objects ≡ s.objects)
  unfolding pframe_pin
  pframe_pin-Inv size pf s used v = elim (Bool-cases (is_pinned (s.frames pf))) [
    | inl held ↦ (
      set_pincount pf ((s.frames pf).pincount + 1) s,
      rw (used, held) refl,
      record {
        linked = recount-Linked pf ((s.frames pf).pincount + 1) s held (omega arith) v.linked;
        indexed = repinned-Indexed size pf ((s.frames pf).pincount + 1) s v.indexed;
      },
      refl,
      refl,
    )
    | inr loose ↦
        let listed : is_empty s.alloc_list ≡ false =
          occurs-not_empty pf s.alloc_list (ground (arith, v.linked.allocated pf)) in
        (
          set_pincount pf ((s.frames pf).pincount + 1) (to_pinned pf s),
          rw (used, loose, listed) refl,
          record {
            linked = to_pinned-Linked pf s used loose v.linked;
            indexed =
                same-Indexed size s _ refl refl (λ q. ground arith) (λ q. ground arith) v.indexed;
          },
          refl,
          refl,
        )
  ]

  -- `pframe_unpin` of a pinned frame fails no assertion and counts down.
  pub pframe_unpin-Inv :
      (size pf : ℕ) (s : Cache W)
      → is_free (s.frames pf) ≡ false
      → is_pinned (s.frames pf) ≡ true
      → Inv size s
      → (s1 : Cache W) × (pframe_unpin pf s ≡ some s1)
        × Inv size s1
        × ((q : ℕ) → s1.frames q ≡ (set_pincount pf ((s.frames pf).pincount - 1) s).frames q)
        × (s1.objects ≡ s.objects)
  unfolding pframe_unpin
  pframe_unpin-Inv size pf s used held v =
      let left = (s.frames pf).pincount - 1 in
      let listed : is_empty s.pinned_list ≡ false =
        occurs-not_empty pf s.pinned_list (ground (arith, v.linked.pinned pf)) in
      elim (Bool-cases (left == 0)) [
        | inl last ↦ (
          to_allocated pf (set_pincount pf 0 s),
          ground (arith, used, held, listed, last),
          record {
            linked = to_allocated-Linked pf s used held v.linked;
            indexed =
                same-Indexed size s _ refl refl (λ q. ground arith) (λ q. ground arith) v.indexed;
          },
          (λ q. ground arith),
          refl,
        )
        | inr more ↦ (
          set_pincount pf left s,
          rw (used, held, more) refl,
          record {
            linked = recount-Linked pf left s held (ground arith) v.linked;
            indexed = repinned-Indexed size pf left s v.indexed;
          },
          (λ q. ground arith),
          refl,
        )
      ]

  last_unpin :
      (pf : ℕ) (s : Cache W)
      → is_free (s.frames pf) ≡ false
      → (s.frames pf).pincount ≡ 1
      → is_empty s.pinned_list ≡ false
      → pframe_unpin pf s ≡ some (to_allocated pf (set_pincount pf 0 s))
  unfolding pframe_unpin
  last_unpin pf s used one listed = rw (used, one, listed) refl

  -- Unpinning a frame that was just pinned gives back every frame and every count. The lists are as
  -- they were, but that a frame that was not pinned is now at the tail of `alloc_list`.
  pub unpin-pin :
      (size pf : ℕ) (s : Cache W)
      → is_free (s.frames pf) ≡ false
      → Inv size s
      → (s1 : Cache W) × (s2 : Cache W) × (pframe_pin pf s ≡ some s1)
        × (pframe_unpin pf s1 ≡ some s2)
        × ((q : ℕ) → s2.frames q ≡ s.frames q)
        × (s2.alloc_list ≡ (touched pf s).alloc_list)
        × (s2.pinned_list ≡ s.pinned_list)
        × (s2.nallocated ≡ s.nallocated)
        × (s2.npinned ≡ s.npinned)
  unfolding pframe_pin pframe_unpin occurs
  unpin-pin size pf s used v =
      let n = (s.frames pf).pincount in
      elim (Bool-cases (is_pinned (s.frames pf))) [
        | inl held ↦
            let s1 = set_pincount pf (n + 1) s in
            (
              s1,
              set_pincount pf n s1,
              rw (used, held) refl,
              ground (arith, used, held),
              (λ q. ground arith),
              rw held refl,
              refl,
              refl,
              refl,
            )
        | inr loose ↦
            let listed : is_empty s.alloc_list ≡ false =
              occurs-not_empty pf s.alloc_list (ground (arith, v.linked.allocated pf)) in
            let s1 = set_pincount pf (n + 1) (to_pinned pf s) in
            (
              s1,
              to_allocated pf (set_pincount pf 0 s1),
              rw (used, loose, listed) refl,
              last_unpin pf s1 (ground arith) (ground arith) (
                  occurs-not_empty pf s1.pinned_list
                    (ground (arith, occurs-append pf s.pinned_list (pf ∷ [])))),
              (λ q. ground arith),
              rw loose refl,
              remove_item-append pf s.pinned_list (ground (arith, v.linked.pinned pf)),
              ground (
                arith,
                v.linked.allocated pf,
                v.linked.alloc_count,
                occurs-le-length pf s.alloc_list,
              ),
              omega arith,
            )
      ]
