-- ===== src/Core/Jobs/Laws.antt =====
-- What the job-control calls leave for the calls after them.
use unix_os.Core.Process.{Kernel, Process, at_slot, find_by_pid}
use unix_os.Core.Jobs.{setpgid, setsid, getpgid, getsid, getpgrp, current_process}
use unix_os.Prelude.{
  ℕ, ◌<◌, ◌≡◌, some, ok, ◌⊎◌, Option-cases, ◌≢◌, if◌then◌else◌, not, option_map, inl, arith, ◌==◌,
  none, ◌&&◌, err, inr, ◌∙◌, true, eperm, false, ap, sym, refl,
}
use unix_os.Core.Process.Table.{
  find_by_pid-slot, find_by_pid-put_slot, put_slot-other, put_slot-same,
}

-- A setpgid that returns 0, for a pid and a group that are not 0, is what getpgid then returns.
pub setpgid-getpgid :
    (k : Kernel) (pid pgid : ℕ)
    → 0 < pid
    → 0 < pgid
    → (setpgid k pid pgid).0 ≡ ok 0
    → getpgid (setpgid k pid pgid).1 pid ≡ ok pgid
unfolding setpgid getpgid
setpgid-getpgid k pid pgid h g r = elim (Option-cases (current_process k)) [
  | inl e ↦ ground (arith, r, e)
  | inr (cur, e) ↦ elim (Option-cases (find_by_pid k.table pid)) [
    | inl f ↦ ground (arith, r, e, f)
    | inr ((i, p), f) ↦
        let q : Process = record p { pgid = pgid } in
        let (_, s, d) = find_by_pid-slot k.table pid i p f in
        let found = find_by_pid-put_slot k.table pid i p q f refl d in
        elim (put_slot-other k.table i k.current p q s) [
          | inl c ↦ ground (arith, r, e, f, found, put_slot-same k.table i p q s, c)
          | inr c ↦ ground (arith, r, e, f, found, c)
        ]
  ]
]

-- setpgid changes at most the group of one process, the caller itself or a child of it; every slot
-- of the table is as it was or holds such a process with a new group.
pub setpgid_scope :
    (k : Kernel) (cur : Process) (pid pgid j : ℕ)
    → current_process k ≡ some cur
    → let t = (setpgid k pid pgid).1.table in
      (at_slot t j ≡ at_slot k.table j)
      ⊎ ((q : Process) × (g : ℕ) × (at_slot k.table j ≡ some q)
          × ((q.pid ≡ cur.pid) ⊎ (q.ppid ≡ cur.pid))
          × (at_slot t j ≡ some (record q { pgid = g })))
unfolding setpgid
setpgid_scope k cur pid0 pgid0 j e =
    let pid = if pid0 == 0 then cur.pid else pid0 in
    let pgid = if pgid0 == 0 then pid else pgid0 in
    elim (Option-cases (find_by_pid k.table pid)) [
      | inl f ↦ inl (ground (arith, e, f))
      | inr ((i, p), f) ↦
          let q : Process = record p { pgid = pgid } in
          let (_, s, _) = find_by_pid-slot k.table pid i p f in
          elim (allowed p cur) [
            | inl n ↦ inl (ground (arith, e, f, n))
            | inr (y, a) ↦ elim (put_slot-other k.table i j p q s) [
              | inl c ↦ inr (
                p,
                pgid,
                ap (at_slot k.table) (sym c) ∙ s,
                a,
                ground (arith, e, f, y, c, put_slot-same k.table i p q s),
              )
              | inr c ↦ inl (ground (arith, e, f, y, c))
            ]
          ]
    ]
  where
    allowed :
        (p cur : Process)
        → ((not (p.pid == cur.pid) && not (p.ppid == cur.pid)) ≡ true)
          ⊎ (((not (p.pid == cur.pid) && not (p.ppid == cur.pid)) ≡ false)
              × ((p.pid ≡ cur.pid) ⊎ (p.ppid ≡ cur.pid)))
    allowed p cur = ground arith

-- A process that does not lead its group and calls setsid gets its pid, which is then its session
-- and its group; it has no terminal, and a second call fails with EPERM.
pub setsid_leads :
    (k : Kernel) (cur : Process)
    → current_process k ≡ some cur
    → cur.pid ≢ cur.pgid
    → let k' = (setsid k).1 in
      ((setsid k).0 ≡ ok cur.pid)
      × (getsid k' 0 ≡ ok cur.pid)
      × (getpgrp k' ≡ ok cur.pid)
      × (option_map (λ p. p.tty) (current_process k') ≡ some none)
      × (setsid k' ≡ (err eperm, k'))
unfolding setsid getsid getpgrp
setsid_leads k cur e n =
    let q : Process = record cur { sid = cur.pid; pgid = cur.pid; tty = none } in
    let s = put_slot-same k.table k.current cur q e in
    (
      ground (arith, e, n),
      ground (arith, e, n, s),
      ground (arith, e, n, s),
      ground (arith, e, n, s),
      ground (arith, e, n, s),
    )
