-- ===== src/App/Conntrack/Writable.antt =====
-- server/app/conntrack.go, isSysFSWritable: its answer for a list of mount points.
use kube_haproxy.Prelude.{
  true, List, [], ◌∷◌, ◌++◌, ◌≡◌, refl, sym, ◌∙◌, ap, ◌==◌, ==_iff, Bool-cases, string_eq, inl, inr,
  ◌↔◌, ◌≢◌, In, here, there, In-cases, not_in_nil,
}
use kube_haproxy.App.Conntrack.{MountPoint, sysfs_writable, first_is_rw}

-- The first sysfs among the mount points, with what stands before and after it.
pub record FirstSysfs (ms : List MountPoint) : Type 0 where
  pub before : List MountPoint
  pub mount : MountPoint
  pub after : List MountPoint
  pub is : ms ≡ before ++ mount ∷ after
  pub is_sysfs : mount.fs_type ≡ "sysfs"
  pub others : (m : MountPoint) → In m before → m.fs_type ≢ "sysfs"

abbrev one_more :
    {ms : List MountPoint} (m : MountPoint)
    → m.fs_type ≢ "sysfs"
    → FirstSysfs ms
    → FirstSysfs (m ∷ ms)
one_more m n f = record {
  before = m ∷ f.before;
  mount = f.mount;
  after = f.after;
  is = ap (λ l. m ∷ l) f.is;
  is_sysfs = f.is_sysfs;
  others = λ k i e. elim (In-cases i) [
    | inl p ↦ n (ap (λ (j : MountPoint). j.fs_type) (sym p) ∙ e)
    | inr j ↦ f.others k j e
  ];
}

writable_first :
    (ms : List MountPoint)
    → sysfs_writable ms ≡ inr true
    → (f : FirstSysfs ms) × (first_is_rw f.mount.opts ≡ true)
unfolding sysfs_writable
writable_first [] e = cc e
writable_first (m ∷ ms) e = elim (Bool-cases (m.fs_type == "sysfs")) [
  | inl p ↦ elim (Bool-cases (first_is_rw m.opts)) [
    | inl q ↦ (
      record {
        before = [];
        mount = m;
        after = ms;
        is = refl;
        is_sysfs = (==_iff m.fs_type "sysfs").0 p;
        others = λ k i. absurd (not_in_nil i);
      },
      q,
    )
    | inr q ↦ cc (rw (p, q, sysfs_writable) at e)
  ]
  | inr p ↦
      let (f, r) = writable_first ms (rw (p, sysfs_writable) at e) in
      (one_more m (λ q. cc ((==_iff m.fs_type "sysfs").1 q, p)) f, r)
]

first_writable :
    (before after : List MountPoint) (m : MountPoint)
    → m.fs_type ≡ "sysfs"
    → ((k : MountPoint) → In k before → k.fs_type ≢ "sysfs")
    → first_is_rw m.opts ≡ true
    → sysfs_writable (before ++ m ∷ after) ≡ inr true
unfolding sysfs_writable
first_writable [] after m is others r = rw ((==_iff m.fs_type "sysfs").1 is, r) refl
first_writable (b ∷ before) after m is others r = elim (Bool-cases (b.fs_type == "sysfs")) [
  | inl p ↦ absurd (others b (here refl) ((==_iff b.fs_type "sysfs").0 p))
  | inr p ↦ rw p (first_writable before after m is (λ k i. others k (there i)) r)
]

-- isSysFSWritable answers true exactly when the first sysfs among the mount points is mounted with
-- "rw" as its first option: mount points before it of other types, and all after it, do not matter.
pub sysfs_writable_iff :
    (ms : List MountPoint)
    → (sysfs_writable ms ≡ inr true) ↔ ((f : FirstSysfs ms) × (first_is_rw f.mount.opts ≡ true))
sysfs_writable_iff ms = (
  writable_first ms,
  λ fr.
      ap sysfs_writable fr.0.is
      ∙ first_writable fr.0.before fr.0.after fr.0.mount fr.0.is_sysfs fr.0.others fr.1,
)
