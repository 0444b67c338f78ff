-- ===== src/Cmdline/Mounting/Places.antt =====
-- What one mount rule of a command line does, once its parent directory was looked up.
use libdwarfs.Prelude.{
  ℕ, ℤ, pos, negsuc, pos_part, ==ℤ_iff, if◌then◌else◌, ◌==ℤ◌, ltb_ℤ, ◌%◌, ◌^◌, ◌<◌, ◌≡◌, ◌≢◌, refl,
  subst, true, false, Option, none, some, Bytes, ascii, ◌==◌, arith, ◌⊎◌, inl, inr, Bool-cases,
}
use libdwarfs.Errno.{Out, dwarfs_io_error, dwarfs_s_link_outside}
use libdwarfs.Dwarfs.{Stat, Filesystem}
use libdwarfs.Root.{Found}
use libdwarfs.System.{System}
use libdwarfs.Memfs.State.{Memfs}
use libdwarfs.MemfsTable.{MemfsTable}
use libdwarfs.MountTable as MountTable
use libdwarfs.MountTable.{MountTable, MountPoint, MountTarget, point, path, memfs, point_eq_iff}
use libdwarfs.Cmdline.Mounting.Grown.{
  insert_keeps, insert_there, insert_fresh, insert_elsewhere, get_or, HasGrown, HasGrown-refl,
}
use libdwarfs.IoRoot.{State, mount_memfs, load_memfs}
use libdwarfs.Cmdline.Mounting.{
  Refusal, no_parent, parent_outside, no_file, unread_file, unmounted, ImageFile, absent, unread,
  buffer, Outcome, mount_image, mount_in,
}

file_cases :
    (f : ImageFile)
    → (f ≡ absent) ⊎ (f ≡ unread) ⊎ ((data_at : ℕ) × (size : ℕ) × (f ≡ buffer data_at size))
file_cases absent = inl refl
file_cases unread = inr (inl refl)
file_cases (buffer data_at size) = inr (inr (data_at, size, refl))

module _ (sys : System) (blank : Filesystem)
    (parse_image : Memfs → Option Bytes → Option Filesystem) (sys_stat : Bytes → Out (ℤ × Stat))
    (image_file : Bytes → ImageFile) where
  -- Only this mount point is changed.
  abbrev OnlyAt : State sys.Os → MountPoint → State sys.Os → Type 0
  OnlyAt s at s' =
      (q : MountPoint) → at ≢ q → MountTable.get s'.mounts q ≡ MountTable.get s.mounts q

  -- A rule for a directory outside: its path is mounted, unless something was mounted there, and nothing
  -- else changes.
  pub record PutsPath (s : State sys.Os) (at : MountPoint) (target : Bytes) (s' : State sys.Os)
      : Type 0 where
    pub there :
        MountTable.get s'.mounts at ≡ some (get_or (MountTable.get s.mounts at) (path target))
    pub elsewhere : OnlyAt s at s'
    pub rest : s' ≡ record s { mounts = s'.mounts }

  -- A rule for an image: the file was read, the image is loaded from its buffer as a new file system, which is
  -- mounted where nothing was, and no other mount point changes.
  pub record PutsImage (s : State sys.Os) (at : MountPoint) (target : Bytes) (s' : State sys.Os)
      : Type 0 where
    pub data_at : ℕ
    pub size : ℕ
    pub index : ℕ
    pub file : image_file target ≡ buffer data_at size
    pub loads :
        let r =
          load_memfs sys blank parse_image s.file_systems data_at size (some (ascii "auto")) in
        (s'.file_systems ≡ r.0) × (r.1.value ≡ pos index) × (0 < index)
    pub free : MountTable.get s.mounts at ≡ none
    pub there : MountTable.get s'.mounts at ≡ some (memfs index)
    pub elsewhere : OnlyAt s at s'
    pub rest : s' ≡ record s { mounts = s'.mounts; file_systems = s'.file_systems }

  abbrev pub Puts : State sys.Os → MountPoint → ℕ → Bytes → State sys.Os → Type 0
  Puts s at separator target s' =
      ((separator ≡ 58) × PutsPath s at target s') ⊎ ((separator ≢ 58) × PutsImage s at target s')

  -- Why a rule is refused, once the parent directory was looked up.
  abbrev pub Fails : State sys.Os → Found → MountPoint → Bytes → Refusal → Type 0
  Fails s f at target no_parent = f.ret ≡ dwarfs_io_error
  Fails s f at target parent_outside = f.ret ≡ dwarfs_s_link_outside
  Fails s f at target no_file = image_file target ≡ absent
  Fails s f at target unread_file = image_file target ≡ unread
  Fails s f at target unmounted =
      (data_at : ℕ) × (size : ℕ) × (image_file target ≡ buffer data_at size)
      × (ltb_ℤ
            (mount_memfs sys blank parse_image s data_at size (some (ascii "auto")) at.0
              at.1).1.value
            (pos 1)
          ≡ true)
  Fails s f at target reason = ⊥

  -- What a rule does behind the look-up of its parent directory.
  abbrev pub Settled :
      State sys.Os
      → Found
      → MountPoint
      → ℕ
      → Bytes
      → Outcome sys blank parse_image sys_stat image_file
      → Type 0
  Settled s f at separator target (s', none) = HasGrown s s' × Puts s at separator target s'
  Settled s f at separator target (s', some reason) = HasGrown s s' × Fails s f at target reason

  loaded-PutsImage :
      (s : State sys.Os) (data_at size : ℕ) (at : MountPoint) (target : Bytes) (t : MemfsTable)
      (value : ℤ)
      → image_file target ≡ buffer data_at size
      → let r =
          load_memfs sys blank parse_image s.file_systems data_at size (some (ascii "auto")) in
        let (mounts, fresh) = MountTable.insert s.mounts at (memfs (pos_part value)) in
        ((t ≡ r.0) × (r.1.value ≡ value))
        → ltb_ℤ (if fresh then value else dwarfs_io_error) (pos 1) ≡ false
        → PutsImage s at target (record s { file_systems = t; mounts = mounts })
  loaded-PutsImage s data_at size at target t (negsuc n) file loads h = absurd (ground arith)
  loaded-PutsImage s data_at size at target t (pos n) file loads h =
      elim (Bool-cases (MountTable.insert s.mounts at (memfs n)).1) [
        | inl new ↦
            let free = insert_fresh s.mounts at (memfs n) new in
            record {
              data_at = data_at;
              size = size;
              index = n;
              file = file;
              loads = (loads.0, loads.1, ground arith);
              free = free;
              there =
                  subst
                    (λ o.
                      MountTable.get (MountTable.insert s.mounts at (memfs n)).0 at
                      ≡ some (get_or o (memfs n)))
                    free (insert_there s.mounts at (memfs n));
              elsewhere = λ q ne. insert_elsewhere s.mounts at q (memfs n) ne;
              rest = refl;
            }
        | inr old ↦ absurd (ground arith)
      ]

  mount_memfs-HasGrown :
      (s : State sys.Os) (data_at size : ℕ) (at : MountPoint) (target : Bytes)
      → image_file target ≡ buffer data_at size
      → let r = mount_memfs sys blank parse_image s data_at size (some (ascii "auto")) at.0 at.1 in
        HasGrown s r.0 × ((ltb_ℤ r.1.value (pos 1) ≡ false) → PutsImage s at target r.0)
  unfolding mount_memfs
  mount_memfs-HasGrown s data_at size at target file =
      let (t, loaded) =
        load_memfs sys blank parse_image s.file_systems data_at size (some (ascii "auto")) in
      elim (Bool-cases (loaded.value ==ℤ dwarfs_io_error)) [
        | inl bad ↦
            rw (mount_memfs, bad)
              (record { keeps = λ p v h. h; same_fds = refl }, λ h. absurd (ground arith))
        | inr good ↦
            rw (mount_memfs, good)
              (
                record { keeps = λ p v h. insert_keeps s.mounts at p _ v h; same_fds = refl },
                λ h. loaded-PutsImage s data_at size at target t loaded.value file (refl, refl) h,
              )
      ]

  mount_image-Settled :
      (s : State sys.Os) (f : Found) (at : MountPoint) (separator : ℕ) (target : Bytes)
      → separator ≢ 58
      → Settled s f at separator target
          (mount_image sys blank parse_image sys_stat image_file s at.0 at.1 target)
  unfolding mount_image
  mount_image-Settled s f at separator target ne = elim (file_cases (image_file target)) [
    | inl e ↦ rw (mount_image, e) (HasGrown-refl s, e)
    | inr (inl e) ↦ rw (mount_image, e) (HasGrown-refl s, e)
    | inr (inr (data_at, size, e)) ↦
        let (s', ret) =
          mount_memfs sys blank parse_image s data_at size (some (ascii "auto")) at.0 at.1 in
        let (grown, there) = mount_memfs-HasGrown s data_at size at target e in
        elim (Bool-cases (ltb_ℤ ret.value (pos 1))) [
          | inl low ↦ rw (mount_image, e) (rw low (grown, (data_at, size, e, low)))
          | inr high ↦ rw (mount_image, e) (rw high (grown, inr (ne, there high)))
        ]
  ]

  pub mount_in-Settled :
      (s : State sys.Os) (f : Found) (name : Bytes) (separator : ℕ) (target : Bytes)
      → Settled s f
          (f.st.st_ino % 2 ^ 32, name)
          separator
          target
          (mount_in sys blank parse_image sys_stat image_file s f name separator target)
  unfolding mount_in
  mount_in-Settled s f name separator target =
      let at : MountPoint = (f.st.st_ino % 2 ^ 32, name) in
      elim (Bool-cases (f.ret ==ℤ dwarfs_io_error)) [
        | inl e ↦ rw (mount_in, e) (HasGrown-refl s, (==ℤ_iff f.ret dwarfs_io_error).0 e)
        | inr e ↦ elim (Bool-cases (f.ret ==ℤ dwarfs_s_link_outside)) [
          | inl o ↦ rw (mount_in, e, o) (HasGrown-refl s, (==ℤ_iff f.ret dwarfs_s_link_outside).0 o)
          | inr o ↦ elim (Bool-cases (separator == 58)) [
            | inl c ↦
                rw (mount_in, e, o, c)
                  (
                    record { keeps = λ p v h. insert_keeps s.mounts at p _ v h; same_fds = refl },
                    inl (
                      ground (arith, c),
                      record {
                        there = insert_there s.mounts at (path target);
                        elsewhere = λ q ne. insert_elsewhere s.mounts at q (path target) ne;
                        rest = refl;
                      },
                    ),
                  )
            | inr c ↦
                rw (mount_in, e, o, c)
                  (mount_image-Settled s f at separator target (ground (arith, c)))
          ]
        ]
      ]
