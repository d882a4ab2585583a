-- ===== src/Mm/Frames/Invariant.antt =====
-- kernel/mm/pframe.c: what the lists, the counters and the hash table say of the page frames.
use kernel.Base.{
  ℕ, ◌≤◌, ◌≡◌, refl, sym, ap, ◌∙◌, true, false, [], ◌∷◌, if◌then◌else◌, arith, length, occurs,
  occurs-append, occurs-remove_item, length-append, length-remove_item, remove_item,
  occurs-le-length, if-Holds,
}
use kernel.Mm.Cache.{Frame, Cache, is_free, is_pinned, is_of, holds, bucket_of}
use kernel.Mm.Frames.{requeued, touched}

abbrev pub on_alloc_list : Frame → ℕ
on_alloc_list f = if is_free f then 0 else if is_pinned f then 0 else 1

abbrev pub on_pinned_list : Frame → ℕ
on_pinned_list f = if is_free f then 0 else if is_pinned f then 1 else 0

-- A frame is on `alloc_list` when it is in use and not pinned, on `pinned_list` when it is pinned,
-- once, and the counters are the lengths.
pub record Linked {W : Type 0} (s : Cache W) : Type 0 where
  pub allocated : (pf : ℕ) → occurs pf s.alloc_list ≡ on_alloc_list (s.frames pf)
  pub pinned : (pf : ℕ) → occurs pf s.pinned_list ≡ on_pinned_list (s.frames pf)
  pub alloc_count : s.nallocated ≡ length s.alloc_list
  pub pin_count : s.npinned ≡ length s.pinned_list

-- A frame is in the hash chain of its page and in the list of its object, once; `mmo_nrespages`
-- counts the list, and the object has a reference for each of its frames; no two frames hold the
-- same page.
pub record Indexed {W : Type 0} (size : ℕ) (s : Cache W) : Type 0 where
  pub hashed :
      (b pf : ℕ)
      → occurs pf (s.hash b)
        ≡ (if is_of b (bucket_of size (s.frames pf).obj (s.frames pf).pagenum) then 1 else 0)
  pub owned :
      (o pf : ℕ) → occurs pf (s.objects o).respages ≡ (if is_of o (s.frames pf).obj then 1 else 0)
  pub sized : (o : ℕ) → (s.objects o).nrespages ≡ length (s.objects o).respages
  pub referenced : (o : ℕ) → (s.objects o).nrespages ≤ (s.objects o).refcount
  pub unique :
      (pf pf' o n : ℕ) → holds o n (s.frames pf) ≡ true → holds o n (s.frames pf') ≡ true → pf ≡ pf'

pub record Inv {W : Type 0} (size : ℕ) (s : Cache W) : Type 0 where
  pub linked : Linked s
  pub indexed : Indexed size s

module _ {W : Type 0} where
  pub requeued-Linked :
      (pf : ℕ) (s : Cache W)
      → is_free (s.frames pf) ≡ false
      → is_pinned (s.frames pf) ≡ false
      → Linked s
      → Linked (requeued pf s)
  unfolding occurs
  requeued-Linked pf s used loose v =
      let front = remove_item pf s.alloc_list in
      record {
        allocated = λ q. ground (
          arith,
          v.allocated q,
          v.allocated pf,
          occurs-append q front (pf ∷ []),
          occurs-remove_item pf q s.alloc_list,
        );
        pinned = v.pinned;
        alloc_count = ground (
          arith,
          v.alloc_count,
          v.allocated pf,
          length-append front (pf ∷ []),
          length-remove_item pf s.alloc_list,
          occurs-le-length pf s.alloc_list,
        );
        pin_count = v.pin_count;
      }

  pub touched-Linked :
      (pf : ℕ) (s : Cache W) → is_free (s.frames pf) ≡ false → Linked s → Linked (touched pf s)
  touched-Linked pf s used v =
      if-Holds Linked (is_pinned (s.frames pf)) (λ _. v) λ loose. requeued-Linked pf s used loose v

  -- Nothing but `alloc_list` changes.
  pub touched-frames : (pf : ℕ) (s : Cache W) → (touched pf s).frames ≡ s.frames
  touched-frames pf s =
      if-Holds (λ (t : Cache W). t.frames ≡ s.frames) (is_pinned (s.frames pf)) (λ _. refl)
        λ _. refl

  pub touched-objects : (pf : ℕ) (s : Cache W) → (touched pf s).objects ≡ s.objects
  touched-objects pf s =
      if-Holds (λ (t : Cache W). t.objects ≡ s.objects) (is_pinned (s.frames pf)) (λ _. refl)
        λ _. refl

  pub touched-Indexed : (size pf : ℕ) (s : Cache W) → Indexed size s → Indexed size (touched pf s)
  touched-Indexed size pf s v =
      if-Holds (Indexed size) (is_pinned (s.frames pf)) (λ _. v)
        λ _. record {
          hashed = v.hashed;
          owned = v.owned;
          sized = v.sized;
          referenced = v.referenced;
          unique = v.unique;
        }

  -- A state with the same lists and counters, in which every frame is as much in use and as pinned.
  pub same-Linked :
      (s t : Cache W)
      → t.alloc_list ≡ s.alloc_list
      → t.pinned_list ≡ s.pinned_list
      → t.nallocated ≡ s.nallocated
      → t.npinned ≡ s.npinned
      → ((pf : ℕ) → (t.frames pf).obj ≡ (s.frames pf).obj)
      → ((pf : ℕ) → (t.frames pf).pincount ≡ (s.frames pf).pincount)
      → Linked s
      → Linked t
  same-Linked s t al pl na np objs pins v = record {
    allocated = λ pf. rw (al, objs pf, pins pf) (v.allocated pf);
    pinned = λ pf. rw (pl, objs pf, pins pf) (v.pinned pf);
    alloc_count = na ∙ v.alloc_count ∙ sym (ap length al);
    pin_count = np ∙ v.pin_count ∙ sym (ap length pl);
  }

  -- A state with the same hash table, in which the frames hold the same pages and the objects have
  -- the same frames and references.
  pub same-Indexed :
      (size : ℕ) (s t : Cache W)
      → t.hash ≡ s.hash
      → t.objects ≡ s.objects
      → ((pf : ℕ) → (t.frames pf).obj ≡ (s.frames pf).obj)
      → ((pf : ℕ) → (t.frames pf).pagenum ≡ (s.frames pf).pagenum)
      → Indexed size s
      → Indexed size t
  same-Indexed size s t hashes objects objs pages v = record {
    hashed = λ b pf. rw (hashes, objs pf, pages pf) (v.hashed b pf);
    owned = λ o pf. rw (objects, objs pf) (v.owned o pf);
    sized = λ o. rw objects (v.sized o);
    referenced = λ o. rw objects (v.referenced o);
    unique = λ pf pf' o n. rw (objs pf, objs pf', pages pf, pages pf') (v.unique pf pf' o n);
  }
