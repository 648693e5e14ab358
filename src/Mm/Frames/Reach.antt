-- ===== src/Mm/Frames/Reach.antt =====
-- What callers and allocator do in turn, and what holds throughout.
use unix_os.Mm.Frames.{Frames, allocate_frame, frame_incref, free_frame}
use unix_os.Prelude.{
  ℕ, Bool, ◌≡◌, [], some, arith, ◌<◌, List, none, ap, Bool-cases, ◌+◌, true, subst, inl, sym, inr,
  ◌-◌, ◌∙◌, ltb, ltb→lt, has, update,
}
use unix_os.Mm.Frames.Owned.{Inv, Loose}
use unix_os.Mm.Frames.Scan.{Scanned, Nodup}
use unix_os.Mm.Frames.Exhausted.{NextIsFirst}

-- The allocator, and the references that its callers have to each frame.
pub record World : Type 0 where
  pub frames : Frames
  pub held : ℕ → ℕ

-- A frame is taken, the attempt fails, a reference is added (fewer than 65535 being there) or one that
-- is held is dropped, each on any processor.
pub data Step : World → World → Type 0 where
  take :
      (w : World) (me f : ℕ) (s : Frames)
      → allocate_frame w.frames me ≡ (some f, s)
      → Step w (record { frames = s; held = update w.held f 1 })
  fail :
      (w : World) (me : ℕ) (s : Frames)
      → allocate_frame w.frames me ≡ (none, s)
      → Step w (record { frames = s; held = w.held })
  share :
      (w : World) (f : ℕ)
      → 0 < w.held f
      → w.held f < 0xFFFF
      → Step w (record { frames = frame_incref w.frames f; held = update w.held f (w.held f + 1) })
  drop :
      (w : World) (me f : ℕ)
      → 0 < w.held f
      → Step w (record {
        frames = free_frame w.frames me (some f);
        held = update w.held f (w.held f - 1);
      })

-- The start: the bitmap as paging_init leaves it.
abbrev pub start : (ℕ → Bool) → World
start boot = record {
  frames = record { bitmap = boot; next_free = 0; refcount = λ f. 0; magazine = λ c. [] };
  held = λ f. 0;
}

pub data Reach (boot : ℕ → Bool) : World → Type 0 where
  here : Reach boot (start boot)
  later : {w w' : World} → Reach boot w → Step w w' → Reach boot w'

abbrev pub recount : Frames → ℕ → ℕ → Frames
recount s f n = record s { refcount = update s.refcount f n }

module _ (boot : ℕ → Bool) (held : ℕ → ℕ) (s : Frames) (v : Inv boot held s) where
  pub Inv-recount : (f n : ℕ) → held f ≡ 0 → Inv boot held (recount s f n)
  Inv-recount f n z = record {
    next = v.next;
    kept = v.kept;
    stored_used = v.stored_used;
    stored_unheld = v.stored_unheld;
    stored_low = v.stored_low;
    stored_high = v.stored_high;
    stored_new = v.stored_new;
    apart = v.apart;
    nodup = v.nodup;
    held_used = v.held_used;
    held_count =
        λ g p. let e = v.held_count g p in ground (arith, e, p, z, ap held {x = g} {y = f});
    held_low = v.held_low;
    held_high = v.held_high;
    held_new = v.held_new;
  }

  -- A loose frame with a count of 1 becomes held.
  pub Inv-held : (f : ℕ) → Loose boot held s f → s.refcount f ≡ 1 → Inv boot (update held f 1) s
  Inv-held f l e = record {
    next = v.next;
    kept = v.kept;
    stored_used = v.stored_used;
    stored_unheld = λ c g h.
        let z = v.stored_unheld c g h in
        let u = l.unstored c in ground (arith, z, u, h, ap (has (s.magazine c)) {x = g} {y = f});
    stored_low = v.stored_low;
    stored_high = v.stored_high;
    stored_new = v.stored_new;
    apart = v.apart;
    nodup = v.nodup;
    held_used = λ g p.
        let a = v.held_used g in
        let b = l.used in ground (arith, a, b, p, ap s.bitmap {x = g} {y = f});
    held_count =
        λ g p. let a = v.held_count g in ground (arith, a, e, p, ap s.refcount {x = g} {y = f});
    held_low = λ g p. let a = v.held_low g in let b = l.low in ground (arith, a, b, p);
    held_high = λ g p. let a = v.held_high g in let b = l.high in ground (arith, a, b, p);
    held_new = λ g p.
        let a = v.held_new g in let b = l.new in ground (arith, a, b, p, ap boot {x = g} {y = f});
  }

  -- A held frame's count changes with the references to it, down to 0.
  pub Inv-shared : (f n : ℕ) → 0 < held f → Inv boot (update held f n) (recount s f n)
  Inv-shared f n h = record {
    next = v.next;
    kept = v.kept;
    stored_used = v.stored_used;
    stored_unheld =
        λ c g k. let z = v.stored_unheld c g k in ground (arith, z, h, ap held {x = g} {y = f});
    stored_low = v.stored_low;
    stored_high = v.stored_high;
    stored_new = v.stored_new;
    apart = v.apart;
    nodup = v.nodup;
    held_used = λ g p.
        let a = v.held_used g in
        let b = v.held_used f h in ground (arith, a, b, p, ap s.bitmap {x = g} {y = f});
    held_count = λ g p. let a = v.held_count g in ground (arith, a, p);
    held_low = λ g p. let a = v.held_low g in let b = v.held_low f h in ground (arith, a, b, p);
    held_high = λ g p. let a = v.held_high g in let b = v.held_high f h in ground (arith, a, b, p);
    held_new = λ g p.
        let a = v.held_new g in
        let b = v.held_new f h in ground (arith, a, b, p, ap boot {x = g} {y = f});
  }

  pub Loose-dropped : (f : ℕ) → 0 < held f → Loose boot (update held f 0) (recount s f 0) f
  Loose-dropped f h = record {
    used = v.held_used f h;
    unstored = λ c. elim (Bool-cases (has (s.magazine c) f)) [
      | inl y ↦ let z = v.stored_unheld c f y in absurd (omega arith)
      | inr n ↦ n
    ];
    unheld = ground arith;
    low = v.held_low f h;
    high = v.held_high f h;
    new = v.held_new f h;
  }

  -- What the scan found is loose, and the rest is as it was.
  module _ (out : List ℕ) (s' : Frames) (r : Scanned s out s') where
    same : (c g : ℕ) → has (s'.magazine c) g ≡ true → has (s.magazine c) g ≡ true
    same c g h = ap (λ m. has m g) (sym (r.mags c)) ∙ h

    pub Inv-Scanned : NextIsFirst s' → Inv boot held s'
    Inv-Scanned x = record {
      next = x;
      kept = λ g h. let a = r.bits g in let b = v.kept g h in ground (arith, a, b);
      stored_used = λ c g h.
          let a = r.bits g in let b = v.stored_used c g (same c g h) in ground (arith, a, b);
      stored_unheld = λ c g h. v.stored_unheld c g (same c g h);
      stored_low = λ c g h. v.stored_low c g (same c g h);
      stored_high = λ c g h. v.stored_high c g (same c g h);
      stored_new = λ c g h. v.stored_new c g (same c g h);
      apart = λ c d g h k. v.apart c d g (same c g h) (same d g k);
      nodup = λ c. subst Nodup (sym (r.mags c)) (v.nodup c);
      held_used = λ g p. let a = r.bits g in let b = v.held_used g p in ground (arith, a, b);
      held_count = λ g p.
          let a = r.refs g in
          let b = v.held_count g p in
          let c = r.clear g in let d = v.held_used g p in ground (arith, a, b, c, d);
      held_low = v.held_low;
      held_high = v.held_high;
      held_new = v.held_new;
    }

    pub Loose-Scanned : (g : ℕ) → has out g ≡ true → Loose boot held s' g
    Loose-Scanned g h = record {
      used = let a = r.bits g in ground (arith, a, h);
      unstored = λ c. elim (Bool-cases (has (s'.magazine c) g)) [
        | inl y ↦
            let a = v.stored_used c g (same c g y) in
            let b = r.clear g h in absurd (ground (arith, a, b))
        | inr n ↦ n
      ];
      unheld = elim (Bool-cases (ltb 0 (held g))) [
        | inl y ↦
            let a = v.held_used g (ltb→lt _ _ y) in
            let b = r.clear g h in absurd (ground (arith, a, b))
        | inr n ↦ ground (arith, n)
      ];
      low = r.low g h;
      high = r.high g h;
      new = elim (Bool-cases (boot g)) [
        | inl y ↦ let a = v.kept g y in let b = r.clear g h in absurd (ground (arith, a, b))
        | inr n ↦ n
      ];
    }
