-- ===== src/IoRoot/Settings.antt =====
-- mount_root_memfs with its settings (src/tebako-io-root.cpp): the options are set before anything is
-- mounted, and an exception of a setter ends the call.
use libdwarfs.Prelude.{ℕ, ℤ, ◌≡◌, ◌⊎◌, true, false, Option, some, Bytes, if◌then◌else◌, false}
use libdwarfs.Errno.{dwarfs_io_error}
use libdwarfs.Dwarfs.{Filesystem}
use libdwarfs.System.{System}
use libdwarfs.Memfs.State.{Memfs}
use libdwarfs.Memfs.Options.{
  Parsers, Options, FsOptions, fs_options, Setting, or_default, Texts, configure,
}
use libdwarfs.IoRoot.{State, mount_root_memfs}

module _ (parsers : Parsers) (sys : System) (blank : Filesystem)
    (parse : FsOptions parsers → Memfs → Option Bytes → Option Filesystem) where
  -- The new file system takes the options that were set.
  unfoldable pub mount_root_with :
      Options parsers
      → State sys.Os
      → ℕ
      → ℕ
      → Texts parsers
      → Option Bytes
      → Options parsers × State sys.Os × ℤ
  mount_root_with o s data_at size texts image_offset =
      let (o', back) = configure parsers o texts in
      let (s', ret) =
        mount_root_memfs sys blank (parse (fs_options parsers o')) s data_at size image_offset in
      if back then (o', s', ret) else (o', s, dwarfs_io_error)

-- What the texts of the settings stand for.
pub record Chosen (parsers : Parsers) : Type 0 where
  pub level : parsers.Level
  pub cache : ℕ
  pub ratio : parsers.Ratio
  pub mode : parsers.Mode
  pub count : ℕ

module _ (parsers : Parsers) where
  -- Every text can be read, a null pointer as its default, and the ratio is in range.
  pub record StandFor (t : Texts parsers) (c : Chosen parsers) : Type 0 where
    pub level : or_default parsers parsers.parse_level parsers.info t.debuglevel_text ≡ some c.level
    pub cache :
        or_default parsers parsers.parse_size_with_unit 536870912 t.cachesize_text ≡ some c.cache
    pub ratio :
        or_default parsers parsers.to_ratio parsers.default_ratio t.decompress_ratio_text
        ≡ some c.ratio
    pub range : parsers.in_range c.ratio ≡ true
    pub mode :
        or_default parsers parsers.parse_mlock_mode parsers.no_lock t.mlock_text ≡ some c.mode
    pub count : or_default parsers parsers.to_size 2 t.workers_text ≡ some c.count

  -- The options with these values in them.
  abbrev pub taken : Options parsers → Chosen parsers → Options parsers
  taken o c = record o {
    debuglevel = c.level;
    threshold = c.level;
    log_context = parsers.with_debug c.level;
    cachesize = c.cache;
    decompress_ratio = c.ratio;
    lock_mode = c.mode;
    workers = c.count;
  }

  -- The setters take all values, or one of them does not come back.
  abbrev Decided : Texts parsers → Options parsers → Setting parsers → Type 0
  Decided t o r =
      ((c : Chosen parsers) × StandFor t c × (r ≡ (taken o c, true)))
      ⊎ (((c : Chosen parsers) → ¬ (StandFor t c)) × (r.1 ≡ false))
