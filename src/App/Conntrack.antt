-- ===== src/App/Conntrack.antt =====
-- server/app/conntrack.go: the settings of connection tracking. Values are not negative.
pub mod Writable
use kube_haproxy.Prelude.{
  ℕ, ◌/◌, ◌<◌, ◌≤◌, String, Bool, true, false, not, Option, none, some, List, [], ◌∷◌, ◌&&◌, ◌≡◌,
  refl, ◌==◌, if◌then◌else◌, leb, inl, inr, ◌⊎◌, string_eq, nat_eq, is_some, ◌+++◌, arith,
  option_eq,
}
use kube_haproxy.Haproxy.Action.{Action, ◌>>=◌, ◌>>◌, pure}

-- mount.MountPoint
pub record MountPoint : Type 0 where
  pub fs_type : String
  pub opts : List String

-- The host, as sysctl, mount and ioutil show it. An error is a text on the left.
pub record Host : Type 1 where
  pub World : Type 0
  -- GetSysctl, with none for an error: its value, -1, differs from every value that is set here
  pub get_sysctl : String → Action World (Option ℕ)
  pub set_sysctl : String → ℕ → Action World (Option String)
  pub list_mounts : Action World (String ⊎ List MountPoint)
  -- ioutil.ReadFile with strconv.Atoi, as readIntStringFile puts them together
  pub read_int_file : String → Action World (String ⊎ ℕ)
  pub write_int_file : String → ℕ → Action World (Option String)

abbrev pub err_read_only_sys_fs : String
err_read_only_sys_fs = "readOnlySysFS"

abbrev pub hashsize_file : String
hashsize_file = "/sys/module/nf_conntrack/parameters/hashsize"

abbrev pub first_is_rw : List String → Bool
first_is_rw [] = false
first_is_rw (opt ∷ opts) = opt == "rw"

-- The loop of isSysFSWritable over the mount points.
unfoldable pub sysfs_writable : List MountPoint → String ⊎ Bool
sysfs_writable [] = inl "no sysfs mounted"
sysfs_writable (m ∷ ms) =
    let rest = sysfs_writable ms in
    if not (m.fs_type == "sysfs")
    then rest
    else if first_is_rw m.opts
    then inr true
    else inl err_read_only_sys_fs

module _ (host : Host) where
  -- setIntSysCtl
  unfoldable pub set_int_sys_ctl : String → ℕ → Action host.World (Option String)
  set_int_sys_ctl name value w =
      let entry = "net/netfilter/" +++ name in
      let (val, w1) = host.get_sysctl entry w in
      if not (val == some value) then host.set_sysctl entry value w1 else (none, w1)

  unfoldable pub set_tcp_established_timeout : ℕ → Action host.World (Option String)
  unfolding set_int_sys_ctl
  set_tcp_established_timeout = set_int_sys_ctl "nf_conntrack_tcp_timeout_established"

  unfoldable pub set_tcp_close_wait_timeout : ℕ → Action host.World (Option String)
  unfolding set_int_sys_ctl
  set_tcp_close_wait_timeout = set_int_sys_ctl "nf_conntrack_tcp_timeout_close_wait"

  -- isSysFSWritable
  unfoldable pub is_sys_fs_writable : Action host.World (String ⊎ Bool)
  unfolding sysfs_writable
  is_sys_fs_writable w =
      let (mounts, w1) = host.list_mounts w in
      (elim mounts [ inl e ↦ inl e | inr ms ↦ sysfs_writable ms ], w1)

  -- SetMax, from the point where the hash size is known to be too small.
  unfoldable pub set_hashsize : ℕ → Action host.World (Option String)
  unfolding is_sys_fs_writable
  set_hashsize max w =
      let (writable, w1) = is_sys_fs_writable w in
      elim writable [
        | inl e ↦ (some e, w1)
        | inr true ↦ host.write_int_file hashsize_file (max / 4) w1
        | inr false ↦ (some err_read_only_sys_fs, w1)
      ]

  -- SetMax
  unfoldable pub set_max : ℕ → Action host.World (Option String)
  unfolding set_int_sys_ctl set_hashsize
  set_max max w =
      let (e, w1) = set_int_sys_ctl "nf_conntrack_max" max w in
      elim e [
        | some text ↦ (some text, w1)
        | none ↦
            let (size, w2) = host.read_int_file hashsize_file w1 in
            elim size [
              | inl text ↦ (some text, w2)
              | inr hashsize ↦ if leb (max / 4) hashsize then (none, w2) else set_hashsize max w2
            ]
      ]
