-- ===== src/Core/Cred.antt =====
-- src/kernel/core/cred.c: the setuid family, on the credentials of one process.
use unix_os.Core.Process.{Cred}
use unix_os.Prelude.{
  ℕ, Result, List, ◌<◌, ◌≡◌, arith, ◌∙◌, inr, if◌then◌else◌, ◌∷◌, ◌⊎◌, inl, ◌==◌, ap, [], refl, ok,
  ◌||◌, err, eperm, subst,
}

-- cred_set_uid
unfoldable pub set_uid : Cred → ℕ → Result ℕ × Cred
set_uid c uid =
    if c.euid == 0
    then (ok 0, record c { uid = uid; euid = uid; suid = uid })
    else (if uid == c.uid || (uid == c.euid || uid == c.suid)
        then (ok 0, record c { euid = uid })
        else (err eperm, c))

-- cred_set_gid
pub set_gid : Cred → ℕ → Result ℕ × Cred
set_gid c gid =
    if c.euid == 0
    then (ok 0, record c { gid = gid; egid = gid; sgid = gid })
    else (if gid == c.gid || (gid == c.egid || gid == c.sgid)
        then (ok 0, record c { egid = gid })
        else (err eperm, c))

-- cred_set_euid
pub set_euid : Cred → ℕ → Result ℕ × Cred
set_euid c euid =
    if c.euid == 0 || (euid == c.uid || euid == c.suid)
    then (ok 0, record c { euid = euid })
    else (err eperm, c)

-- cred_set_egid
pub set_egid : Cred → ℕ → Result ℕ × Cred
set_egid c egid =
    if c.euid == 0 || (egid == c.gid || egid == c.sgid)
    then (ok 0, record c { egid = egid })
    else (err eperm, c)

pub data Call : Type 0 where
  setuid setgid seteuid setegid : ℕ → Call

pub call : Cred → Call → Result ℕ × Cred
unfolding set_uid set_gid set_euid set_egid
call c (setuid u) = set_uid c u
call c (setgid g) = set_gid c g
call c (seteuid u) = set_euid c u
call c (setegid g) = set_egid c g

-- The credentials after a sequence of calls.
pub after : Cred → List Call → Cred
after c [] = c
after c (k ∷ ks) = after (call c k).1 ks

-- No user id of the process is root's.
pub record Unprivileged (c : Cred) : Type 0 where
  pub uid_pos : 0 < c.uid
  pub euid_pos : 0 < c.euid
  pub suid_pos : 0 < c.suid

-- The ids that d has from c, for users and for groups: the real and the saved one kept, the effective one
-- among c's three.
pub record From (c d : Cred) : Type 0 where
  pub uid : d.uid ≡ c.uid
  pub suid : d.suid ≡ c.suid
  pub euid : (d.euid ≡ c.uid) ⊎ ((d.euid ≡ c.euid) ⊎ (d.euid ≡ c.suid))
  pub gid : d.gid ≡ c.gid
  pub sgid : d.sgid ≡ c.sgid
  pub egid : (d.egid ≡ c.gid) ⊎ ((d.egid ≡ c.egid) ⊎ (d.egid ≡ c.sgid))

From-Unprivileged : (c d : Cred) → Unprivileged c → From c d → Unprivileged d
From-Unprivileged c d u f = record {
  uid_pos = let p = u.uid_pos in let e = f.uid in omega arith;
  euid_pos = elim f.euid [
    | inl e ↦ let p = u.uid_pos in omega arith
    | inr (inl e) ↦ let p = u.euid_pos in omega arith
    | inr (inr e) ↦ let p = u.suid_pos in omega arith
  ];
  suid_pos = let p = u.suid_pos in let e = f.suid in omega arith;
}

-- An effective id that is among the three of d, where d's effective one is among the three of c.
among_trans :
    (r e s e' x : ℕ)
    → (e' ≡ r) ⊎ ((e' ≡ e) ⊎ (e' ≡ s))
    → (x ≡ r) ⊎ ((x ≡ e') ⊎ (x ≡ s))
    → (x ≡ r) ⊎ ((x ≡ e) ⊎ (x ≡ s))
among_trans r e s e' x f (inl p) = inl p
among_trans r e s e' x f (inr (inr p)) = inr (inr p)
among_trans r e s e' x (inl q) (inr (inl p)) = inl (p ∙ q)
among_trans r e s e' x (inr (inl q)) (inr (inl p)) = inr (inl (p ∙ q))
among_trans r e s e' x (inr (inr q)) (inr (inl p)) = inr (inr (p ∙ q))

From-trans : (c d e : Cred) → From c d → From d e → From c e
From-trans c d e f g = record {
  uid = g.uid ∙ f.uid;
  suid = g.suid ∙ f.suid;
  euid = among_trans c.uid c.euid c.suid d.euid e.euid f.euid (
      subst (λ r. (e.euid ≡ r) ⊎ ((e.euid ≡ d.euid) ⊎ (e.euid ≡ c.suid))) f.uid
        (subst (λ s. (e.euid ≡ d.uid) ⊎ ((e.euid ≡ d.euid) ⊎ (e.euid ≡ s))) f.suid g.euid));
  gid = g.gid ∙ f.gid;
  sgid = g.sgid ∙ f.sgid;
  egid = among_trans c.gid c.egid c.sgid d.egid e.egid f.egid (
      subst (λ r. (e.egid ≡ r) ⊎ ((e.egid ≡ d.egid) ⊎ (e.egid ≡ c.sgid))) f.gid
        (subst (λ s. (e.egid ≡ d.gid) ⊎ ((e.egid ≡ d.egid) ⊎ (e.egid ≡ s))) f.sgid g.egid));
}

From-refl : (c : Cred) → From c c
From-refl c = record {
  uid = refl;
  suid = refl;
  euid = inr (inl refl);
  gid = refl;
  sgid = refl;
  egid = inr (inl refl);
}

uid_of : (c : Cred) (k : Call) → 0 < c.euid → (call c k).1.uid ≡ c.uid
unfolding call set_uid set_gid set_euid set_egid
uid_of c (setuid v) h = ground arith
uid_of c (setgid v) h = ground arith
uid_of c (seteuid v) h = ground arith
uid_of c (setegid v) h = ground arith

suid_of : (c : Cred) (k : Call) → 0 < c.euid → (call c k).1.suid ≡ c.suid
unfolding call set_uid set_gid set_euid set_egid
suid_of c (setuid v) h = ground arith
suid_of c (setgid v) h = ground arith
suid_of c (seteuid v) h = ground arith
suid_of c (setegid v) h = ground arith

euid_of :
    (c : Cred) (k : Call)
    → 0 < c.euid
    → ((call c k).1.euid ≡ c.uid) ⊎ (((call c k).1.euid ≡ c.euid) ⊎ ((call c k).1.euid ≡ c.suid))
unfolding call set_uid set_gid set_euid set_egid
euid_of c (setuid v) h = ground arith
euid_of c (setgid v) h = ground arith
euid_of c (seteuid v) h = ground arith
euid_of c (setegid v) h = ground arith

gid_of : (c : Cred) (k : Call) → 0 < c.euid → (call c k).1.gid ≡ c.gid
unfolding call set_uid set_gid set_euid set_egid
gid_of c (setuid v) h = ground arith
gid_of c (setgid v) h = ground arith
gid_of c (seteuid v) h = ground arith
gid_of c (setegid v) h = ground arith

sgid_of : (c : Cred) (k : Call) → 0 < c.euid → (call c k).1.sgid ≡ c.sgid
unfolding call set_uid set_gid set_euid set_egid
sgid_of c (setuid v) h = ground arith
sgid_of c (setgid v) h = ground arith
sgid_of c (seteuid v) h = ground arith
sgid_of c (setegid v) h = ground arith

egid_of :
    (c : Cred) (k : Call)
    → 0 < c.euid
    → ((call c k).1.egid ≡ c.gid) ⊎ (((call c k).1.egid ≡ c.egid) ⊎ ((call c k).1.egid ≡ c.sgid))
unfolding call set_uid set_gid set_euid set_egid
egid_of c (setuid v) h = ground arith
egid_of c (setgid v) h = ground arith
egid_of c (seteuid v) h = ground arith
egid_of c (setegid v) h = ground arith

call-From : (c : Cred) (k : Call) → Unprivileged c → From c (call c k).1
call-From c k u = record {
  uid = uid_of c k u.euid_pos;
  suid = suid_of c k u.euid_pos;
  euid = euid_of c k u.euid_pos;
  gid = gid_of c k u.euid_pos;
  sgid = sgid_of c k u.euid_pos;
  egid = egid_of c k u.euid_pos;
}

-- A process none of whose user ids is 0 gains nothing by any sequence of setuid, setgid, seteuid and
-- setegid calls: its real and saved user and group ids stay, its effective user id is among the three user
-- ids that it had, and its effective group id among the three group ids.
pub after-From : (c : Cred) (ks : List Call) → Unprivileged c → From c (after c ks)
unfolding after
after-From c [] u = From-refl c
after-From c (k ∷ ks) u =
    let f = call-From c k u in
    From-trans c _ _ f (after-From (call c k).1 ks (From-Unprivileged c _ u f))

-- What root gives up by setuid(u) with u not 0 it never gets back: after any later calls the real,
-- the effective and the saved user id are u.
pub setuid_drops :
    (c : Cred) (u : ℕ) (ks : List Call)
    → c.euid ≡ 0
    → 0 < u
    → let d = after c (setuid u ∷ ks) in (d.uid ≡ u) × (d.euid ≡ u) × (d.suid ≡ u)
unfolding after call set_uid
setuid_drops c u ks h p =
    let dropped : Cred = record c { uid = u; euid = u; suid = u } in
    let e : (call c (setuid u)).1 ≡ dropped = ground (arith, h) in
    let f : From dropped (after dropped ks) =
      after-From dropped ks (record { uid_pos = p; euid_pos = p; suid_pos = p }) in
    let eq : after (call c (setuid u)).1 ks ≡ after dropped ks = ap (λ x. after x ks) e in
    (
      ap (λ x. x.uid) eq ∙ f.uid,
      ap (λ x. x.euid) eq ∙ elim f.euid [ inl q ↦ q | inr (inl q) ↦ q | inr (inr q) ↦ q ],
      ap (λ x. x.suid) eq ∙ f.suid,
    )
