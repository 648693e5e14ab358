-- ===== src/Mm/Frames/Safe.antt =====
-- What allocate_frame gives, from any state that the callers can bring about.
use unix_os.Prelude.{
  ℕ, List, Bool, Option, ◌≡◌, ◌||◌, ◌∷◌, [], ◌≤◌, arith, some, none, ◌<◌, refl, true, if◌then◌else◌,
  ◌+◌, ◌-◌, false, ltb, ◌∙◌, subst, sym, ap, Bool-cases, ◌==◌, ◌⊎◌, inl, inr, has, update,
}
use unix_os.Mm.Frames.Scan.{Scanned, ScannedTo, alloc_frames_locked-Scanned}
use unix_os.Mm.Frames.{
  Frames, push_all, reserved_end, allocate_frame, frame_incref, free_frame, frame_decref, map_end,
  frame_count, alloc_frames_locked, magazine_size, frame_getref, release_frame,
}
use unix_os.Mm.Frames.Owned.{
  Inv, push_all-Inv, Inv-popped, Loose-popped, Loose, popped, release_frame-Inv,
}
use unix_os.Mm.Frames.Exhausted.{
  NextIsFirst, alloc_frames_locked-NextIsFirst, alloc_frames_locked-full,
}
use unix_os.Mm.Frames.Reach.{
  Inv-Scanned, Loose-Scanned, Inv-recount, Inv-held, recount, World, Inv-shared, Step, Reach, take,
  fail, share, Loose-dropped, drop, later, here,
}

-- What a call on processor me returns and leaves.
abbrev pub Given : (ℕ → Bool) → (ℕ → ℕ) → ℕ → Frames → Option ℕ × Frames → Type 0
Given boot held me s (none, s') =
    ((g : ℕ) → reserved_end ≤ g → g < map_end → s.bitmap g ≡ true)
    × (s.magazine me ≡ [])
    × Inv boot held s'
Given boot held me s (some f, s') =
    (held f ≡ 0)
    × (reserved_end ≤ f)
    × (f < map_end)
    × (boot f ≡ false)
    × Inv boot (update held f 1) s'

has-push_all : (fs mag : List ℕ) (g : ℕ) → has (push_all fs mag) g ≡ (has fs g || has mag g)
has-push_all [] mag g = refl
has-push_all (f ∷ fs) mag g = ground (arith, has-push_all fs (f ∷ mag) g)

module _ (boot : ℕ → Bool) (held : ℕ → ℕ) (s : Frames) (me : ℕ) (v : Inv boot held s) where
  popped_given :
      (f : ℕ) (mag : List ℕ)
      → s.magazine me ≡ f ∷ mag
      → Given boot held me s (
        some f,
        record s {
          magazine = update s.magazine me mag;
          refcount = if ltb f frame_count then update s.refcount f 1 else s.refcount;
        },
      )
  popped_given f mag e =
      let v1 = Inv-popped boot held s me f mag v e in
      let l = Loose-popped boot held s me f mag v e in
      let s1 = popped boot held s me mag in
      let v2 = Inv-recount boot held s1 v1 f 1 l.unheld in
      let l2 : Loose boot held (recount s1 f 1) f = record {
        used = l.used;
        unstored = l.unstored;
        unheld = l.unheld;
        low = l.low;
        high = l.high;
        new = l.new;
      } in
      let t : ltb f frame_count ≡ true = small f l.high in
      (
        l.unheld,
        l.low,
        l.high,
        l.new,
        subst
            (λ b.
              Inv boot (update held f 1)
                (record s1 { refcount = if b then update s.refcount f 1 else s.refcount }))
            (sym t) (Inv-held boot held (recount s1 f 1) v2 f l2 (one s.refcount f)),
      )
    where
      small : (f : ℕ) → f < map_end → ltb f frame_count ≡ true
      small f h = ground (arith, h)

      one : (r : ℕ → ℕ) (f : ℕ) → update r f 1 f ≡ 1
      one r f = ground arith

  batch_given :
      (f : ℕ) (fs : List ℕ) (s' : Frames)
      → s.magazine me ≡ []
      → Scanned s (f ∷ fs) s'
      → NextIsFirst s'
      → Given boot held me s
          (some f, record s' { magazine = update s'.magazine me (push_all fs []) })
  batch_given f fs s' e r x =
      let v1 = Inv-Scanned boot held s v (f ∷ fs) s' r x in
      let l = Loose-Scanned boot held s v (f ∷ fs) s' r f (ground arith) in
      let v2 =
        push_all-Inv boot held fs [] s' me r.nodup.1 (r.mags me ∙ e) v1
          (λ g h. Loose-Scanned boot held s v (f ∷ fs) s' r g (ground (arith, h))) in
      let n = r.nodup.0 in
      let l2 : Loose boot held (popped boot held s' me (push_all fs [])) f = record {
        used = l.used;
        unstored = λ c. let u = l.unstored c in ground (arith, u, n, has-push_all fs [] f);
        unheld = l.unheld;
        low = l.low;
        high = l.high;
        new = l.new;
      } in
      let one = r.refs f in
      (
        l.unheld,
        l.low,
        l.high,
        l.new,
        Inv-held boot held (popped boot held s' me (push_all fs [])) v2 f l2 (ground (arith, one)),
      )

  pub allocate_frame-Given : Given boot held me s (allocate_frame s me)
  unfolding allocate_frame
  allocate_frame-Given = step (s.magazine me) refl
    where
      locked : List ℕ × Frames → Option ℕ × Frames
      locked (batch, s') = elim batch [
        | [] ↦ (none, s')
        | f ∷ fs ↦ (some f, record s' { magazine = update s'.magazine me (push_all fs []) })
      ]

      search :
          s.magazine me ≡ []
          → (r : List ℕ × Frames) → ScannedTo s r
          → NextIsFirst r.1
          → (r.0 ≡ [] → (g : ℕ) → reserved_end ≤ g → g < map_end → s.bitmap g ≡ true)
          → Given boot held me s (locked r)
      search e ([], s') r x full = (full refl, e, Inv-Scanned boot held s v [] s' r x)
      search e (f ∷ fs, s') r x full = batch_given f fs s' e r x

      step :
          (mag : List ℕ)
          → s.magazine me ≡ mag
          → Given boot held me s (elim mag [
            | f ∷ rest ↦ (
              some f,
              record s {
                magazine = update s.magazine me rest;
                refcount = if ltb f frame_count then update s.refcount f 1 else s.refcount;
              },
            )
            | [] ↦ locked (alloc_frames_locked s magazine_size)
          ])
      step [] e =
          search e (alloc_frames_locked s magazine_size)
            (alloc_frames_locked-Scanned s magazine_size)
            (alloc_frames_locked-NextIsFirst s magazine_size v.next)
            (λ z g l h. alloc_frames_locked-full s magazine_size g v.next z (omega arith) l h)
      step (f ∷ mag) e = popped_given f mag e

  share-Inv :
      (f : ℕ)
      → 0 < held f
      → held f < 0xFFFF
      → Inv boot (update held f (held f + 1)) (frame_incref s f)
  unfolding frame_incref
  share-Inv f h b =
      let c = v.held_count f h in
      let m = v.held_high f h in
      let e : frame_incref s f ≡ recount s f (held f + 1) =
        ground (arith, c, m, b, ap (λ n. recount s f (n + 1)) c) in
      subst (Inv boot (update held f (held f + 1))) (sym e)
        (Inv-shared boot held s v f (held f + 1) h)

  drop-Inv : (f : ℕ) → 0 < held f → Inv boot (update held f (held f - 1)) (free_frame s me (some f))
  unfolding free_frame frame_decref
  drop-Inv f h =
      let c = v.held_count f h in
      let m = v.held_high f h in
      let l = v.held_low f h in
      elim (Bool-cases (held f == 1)) [
        | inl y ↦
            let one : held f - 1 ≡ 0 = ground (arith, y) in
            let e : free_frame s me (some f) ≡ release_frame (recount s f 0) me f =
              ground (arith, c, m, l, y) in
            subst (λ n. Inv boot (update held f n) (free_frame s me (some f))) (sym one)
              (subst (Inv boot (update held f 0)) (sym e) (
                release_frame-Inv boot (update held f 0) (recount s f 0) me f
                  (Inv-shared boot held s v f 0 h) (Loose-dropped boot held s v f h)))
        | inr n ↦
            let e : free_frame s me (some f) ≡ recount s f (held f - 1) =
              ground (arith, c, m, l, h, n, ap (λ k. recount s f (k - 1)) c) in
            subst (Inv boot (update held f (held f - 1))) (sym e)
              (Inv-shared boot held s v f (held f - 1) h)
      ]

Step-Inv :
    (boot : ℕ → Bool) {w w' : World}
    → Step w w'
    → Inv boot w.held w.frames
    → Inv boot w'.held w'.frames
Step-Inv boot (take w me f s e) v =
    (subst (Given boot w.held me w.frames) e (allocate_frame-Given boot w.held w.frames me v)).4
Step-Inv boot (fail w me s e) v =
    (subst (Given boot w.held me w.frames) e (allocate_frame-Given boot w.held w.frames me v)).2
Step-Inv boot (share w f h b) v = share-Inv boot w.held w.frames 0 v f h b
Step-Inv boot (drop w me f h) v = drop-Inv boot w.held w.frames me v f h

Reach-Inv : (boot : ℕ → Bool) {w : World} → Reach boot w → Inv boot w.held w.frames
Reach-Inv boot here = record {
  next = λ g l h. absurd (omega arith);
  kept = λ g h. h;
  stored_used = λ c g h. absurd (ground (arith, h));
  stored_unheld = λ c g h. refl;
  stored_low = λ c g h. absurd (ground (arith, h));
  stored_high = λ c g h. absurd (ground (arith, h));
  stored_new = λ c g h. absurd (ground (arith, h));
  apart = λ c d g h k. absurd (ground (arith, h));
  nodup = λ c. tt;
  held_used = λ g p. absurd (omega arith);
  held_count = λ g p. absurd (omega arith);
  held_low = λ g p. absurd (omega arith);
  held_high = λ g p. absurd (omega arith);
  held_new = λ g p. absurd (omega arith);
}
Reach-Inv boot (later r st) = Step-Inv boot st (Reach-Inv boot r)

-- Whatever callers on all processors have taken, shared and dropped before, each dropping only what
-- it holds: allocate_frame returns a frame between the end of the kernel heap and the end of the
-- identity map that was not marked used at boot and that nobody holds. It fails only if every
-- frame there is marked used and the magazine of the processor is empty.
pub allocate_frame_exclusive :
    (boot : ℕ → Bool) (w : World) (me : ℕ)
    → Reach boot w
    → let o = (allocate_frame w.frames me).0 in
      ((f : ℕ) × (o ≡ some f)
        × (w.held f ≡ 0)
        × (reserved_end ≤ f)
        × (f < map_end)
        × (boot f ≡ false))
      ⊎ ((o ≡ none)
          × ((g : ℕ) → reserved_end ≤ g → g < map_end → w.frames.bitmap g ≡ true)
          × (w.frames.magazine me ≡ []))
allocate_frame_exclusive boot w me r =
    read (allocate_frame w.frames me)
      (allocate_frame-Given boot w.held w.frames me (Reach-Inv boot r))
  where
    read :
        (o : Option ℕ × Frames)
        → Given boot w.held me w.frames o
        → ((f : ℕ) × (o.0 ≡ some f)
            × (w.held f ≡ 0)
            × (reserved_end ≤ f)
            × (f < map_end)
            × (boot f ≡ false))
          ⊎ ((o.0 ≡ none)
              × ((g : ℕ) → reserved_end ≤ g → g < map_end → w.frames.bitmap g ≡ true)
              × (w.frames.magazine me ≡ []))
    read (none, s') (full, e, v) = inr (refl, full, e)
    read (some f, s') (h, l, m, b, v) = inl (f, refl, h, l, m, b)

-- The count of a frame that is held is the number of references to it, and while there is one the
-- frame stays marked used and stands in no magazine.
pub frame_getref-held :
    (boot : ℕ → Bool) (w : World) (f : ℕ)
    → Reach boot w
    → 0 < w.held f
    → (frame_getref w.frames f ≡ w.held f)
      × (w.frames.bitmap f ≡ true)
      × ((c : ℕ) → has (w.frames.magazine c) f ≡ false)
unfolding frame_getref
frame_getref-held boot w f r h =
    let v = Reach-Inv boot r in
    let c = v.held_count f h in
    let m = v.held_high f h in
    (
      ground (arith, c, m),
      v.held_used f h,
      λ d. elim (Bool-cases (has (w.frames.magazine d) f)) [
        | inl y ↦ let z = v.stored_unheld d f y in absurd (omega arith)
        | inr n ↦ n
      ],
    )
