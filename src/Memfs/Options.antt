-- ===== src/Memfs/Options.antt =====
-- The options that all images share, and their setters: `memfs_options` and the static members of
-- memfs, src/tebako-memfs.cpp, with the constructor's and load's part of them. The texts are read by
-- functions of the dwarfs library and of folly, which are parameters.
use libdwarfs.Prelude.{
  ℕ, ℤ, ◌*◌, ◌^◌, ◌==◌, Bool, true, false, not, Option, none, some, Bytes, ascii, bytes_eq,
  if◌then◌else◌,
}

-- `none` is an exception. `in_range` tests for 0.0 to 1.0, and `with_debug` for DEBUG or finer.
pub record Parsers : Type 1 where
  pub Ratio : Type 0
  pub Level : Type 0
  pub Mode : Type 0
  pub parse_size_with_unit : Bytes → Option ℕ
  pub parse_level : Bytes → Option Level
  pub info : Level
  pub with_debug : Level → Bool
  pub to_ratio : Bytes → Option Ratio
  pub default_ratio : Ratio
  pub in_range : Ratio → Bool
  pub parse_mlock_mode : Bytes → Option Mode
  pub no_lock : Mode
  pub to_size : Bytes → Option ℕ
  pub to_offset : Bytes → Option ℤ

module _ (parsers : Parsers) where
  open parsers use {
    Ratio, Level, Mode, parse_size_with_unit, parse_level, info, with_debug, to_ratio,
    default_ratio, in_range, parse_mlock_mode, no_lock, to_size, to_offset,
  }

  -- `memfs_options`, and the threshold and the context of the log.
  pub record Options : Type 0 where
    pub readonly : ℕ
    pub cache_image : ℕ
    pub enable_nlink : ℕ
    pub cachesize : ℕ
    pub workers : ℕ
    pub lock_mode : Mode
    pub decompress_ratio : Ratio
    pub debuglevel : Level
    pub threshold : Level
    pub log_context : Bool

  -- filesystem_options, as far as the constructor writes them.
  pub record FsOptions : Type 0 where
    pub fs_lock_mode : Mode
    pub max_bytes : ℕ
    pub num_workers : ℕ
    pub fs_decompress_ratio : Ratio
    pub mm_release : Bool
    pub init_workers : Bool
    pub fs_enable_nlink : Bool
    pub fs_readonly : Bool

  abbrev pub fs_options : Options → FsOptions
  fs_options o = record {
    fs_lock_mode = o.lock_mode;
    max_bytes = o.cachesize;
    num_workers = o.workers;
    fs_decompress_ratio = o.decompress_ratio;
    mm_release = o.cache_image == 0;
    init_workers = true;
    fs_enable_nlink = not (o.enable_nlink == 0);
    fs_readonly = not (o.readonly == 0);
  }

  -- What a setter leaves, and whether it came back.
  abbrev pub Setting : Type 0
  Setting = Options × Bool

  -- The text of a setting, with the value for a null pointer.
  abbrev pub or_default {ℓ} : {A : Type ℓ} → (Bytes → Option A) → A → Option Bytes → Option A
  or_default read value none = some value
  or_default read value (some text) = read text

  abbrev pub put_setting {ℓ} : {A : Type ℓ} → Options → Option A → (A → Options) → Setting
  put_setting o none put = (o, false)
  put_setting o (some a) put = (put a, true)

  unfoldable pub set_cachesize : Options → Option Bytes → Setting
  set_cachesize o text =
      put_setting o (or_default parse_size_with_unit (512 * 2 ^ 20) text)
        (λ n. record o { cachesize = n })

  unfoldable pub set_debuglevel : Options → Option Bytes → Setting
  set_debuglevel o text =
      put_setting o (or_default parse_level info text)
        (λ l. record o { debuglevel = l; threshold = l; log_context = with_debug l })

  -- The value is stored, and then tested.
  unfoldable pub set_decompress_ratio : Options → Option Bytes → Setting
  set_decompress_ratio o text = elim (or_default to_ratio default_ratio text) [
    | none ↦ (o, false)
    | some r ↦ (record o { decompress_ratio = r }, in_range r)
  ]

  unfoldable pub set_lock_mode : Options → Option Bytes → Setting
  set_lock_mode o text =
      put_setting o (or_default parse_mlock_mode no_lock text) (λ m. record o { lock_mode = m })

  unfoldable pub set_workers : Options → Option Bytes → Setting
  set_workers o text = put_setting o (or_default to_size 2 text) (λ n. record o { workers = n })

  -- IMAGE_OFFSET_AUTO, or a number.
  pub data ImageOffset : Type 0 where
    auto : ImageOffset
    number : ℤ → ImageOffset

  -- The old value where the text is a null pointer.
  unfoldable pub set_image_offset_str : ImageOffset → Option Bytes → Option ImageOffset
  set_image_offset_str old none = some old
  set_image_offset_str old (some text) =
      if bytes_eq text (ascii "auto")
      then some auto
      else elim (to_offset text) [ none ↦ none | some n ↦ some (number n) ]

  -- One setter behind another, if that came back.
  abbrev pub then_set : Setting → (Options → Setting) → Setting
  then_set (o, true) next = next o
  then_set (o, false) next = (o, false)

  -- The texts of mount_root_memfs.
  pub record Texts : Type 0 where
    pub debuglevel_text : Option Bytes
    pub cachesize_text : Option Bytes
    pub workers_text : Option Bytes
    pub mlock_text : Option Bytes
    pub decompress_ratio_text : Option Bytes

  -- The setters in the order of mount_root_memfs.
  unfoldable pub configure : Options → Texts → Setting
  configure o t =
      then_set
        (then_set
          (then_set
            (then_set (set_debuglevel o t.debuglevel_text)
              (λ o'. set_cachesize o' t.cachesize_text))
            (λ o'. set_decompress_ratio o' t.decompress_ratio_text))
          (λ o'. set_lock_mode o' t.mlock_text))
        (λ o'. set_workers o' t.workers_text)
