-- ===== src/Cmdline/Mounting/Laws.antt =====
-- What the mount rules of a command line leave in the mount table.
use libdwarfs.Prelude.{
  ℕ, ℤ, ◌%◌, ◌^◌, ◌≡◌, true, Option, none, some, List, [], ◌∷◌, ◌++◌, Bytes, ◌||◌,
}
use libdwarfs.Errno.{Out}
use libdwarfs.Dwarfs.{Stat, Filesystem}
use libdwarfs.Root.{Found}
use libdwarfs.System.{System}
use libdwarfs.Paths.{parse, is_absolute, is_empty}
use libdwarfs.Paths.Parts.{file_name, parent_path}
use libdwarfs.Memfs.State.{Memfs}
use libdwarfs.IoRoot.{State}
use libdwarfs.Cmdline.Mounting.Grown.{HasGrown}
use libdwarfs.Cmdline.Mounting.Places.{Puts, Fails}
use libdwarfs.Cmdline.Mounting.{
  Refusal, absolute_place, incomplete_rule, missing_separator, ImageFile, split_rule, Outcome,
  find_parent,
}

module _ (sys : System) (blank : Filesystem)
    (parse_image : Memfs → Option Bytes → Option Filesystem) (sys_stat : Bytes → Out (ℤ × Stat))
    (image_file : Bytes → ImageFile) (fuel : ℕ) where
  -- The parts of a rule, and what the search finds for the directory of its place.
  pub record Parts (s : State sys.Os) (item : Bytes) : Type 0 where
    pub place : Bytes
    pub separator : ℕ
    pub target : Bytes
    pub parent : Found
    pub split : split_rule item ≡ some (place, separator, target)
    pub found :
        find_parent sys blank parse_image sys_stat image_file fuel s (parent_path place)
        ≡ some parent

  -- The rule puts its target at its place.
  abbrev pub Mounts : State sys.Os → Bytes → State sys.Os → Type 0
  Mounts s item s' =
      (p : Parts s item) × Puts sys blank parse_image sys_stat image_file s
        (p.parent.st.st_ino % 2 ^ 32, file_name p.place) p.separator p.target s'

  abbrev pub Refuses : State sys.Os → Bytes → Refusal → Type 0
  Refuses s item missing_separator = split_rule item ≡ none
  Refuses s item absolute_place =
      (place : Bytes) × (rest : ℕ × Bytes) × (split_rule item ≡ some (place, rest.0, rest.1))
      × (is_absolute (parse place) ≡ true)
  Refuses s item incomplete_rule =
      (place : Bytes) × (rest : ℕ × Bytes) × (split_rule item ≡ some (place, rest.0, rest.1))
      × ((is_empty (file_name place) || is_empty rest.1) ≡ true)
  Refuses s item reason =
      (p : Parts s item) × Fails sys blank parse_image sys_stat image_file s p.parent
        (p.parent.st.st_ino % 2 ^ 32, file_name p.place) p.target reason

  abbrev Ran : State sys.Os → Bytes → Outcome sys blank parse_image sys_stat image_file → Type 0
  Ran s item (s', none) = HasGrown s s' × Mounts s item s'
  Ran s item (s', some reason) = HasGrown s s' × Refuses s item reason

  -- So, unless the fuel does not end the search for the directory.
  abbrev Processed :
      State sys.Os → Bytes → Option (Outcome sys blank parse_image sys_stat image_file) → Type 0
  Processed s item none =
      (dir : Bytes) × (find_parent sys blank parse_image sys_stat image_file fuel s dir ≡ none)
  Processed s item (some r) = Ran s item r

  -- Every rule puts its target at its place, one after the other.
  abbrev pub AllMounted : State sys.Os → List Bytes → State sys.Os → Type 0
  AllMounted s [] s' = s' ≡ s
  AllMounted s (item ∷ items) s' = (s₁ : State sys.Os) × Mounts s item s₁ × AllMounted s₁ items s'

  -- The rules up to the one that is refused.
  pub record Stops (s : State sys.Os) (items : List Bytes) (reason : Refusal) : Type 0 where
    pub front : List Bytes
    pub item : Bytes
    pub behind : List Bytes
    pub there : State sys.Os
    pub parts : items ≡ front ++ item ∷ behind
    pub mounts : AllMounted s front there
    pub refuses : Refuses there item reason

  -- What the rules end with.
  abbrev pub Ended :
      State sys.Os
      → List Bytes
      → Option (Outcome sys blank parse_image sys_stat image_file)
      → Type 0
  Ended s items none =
      (s₁ : State sys.Os) × (dir : Bytes) × HasGrown s s₁
      × (find_parent sys blank parse_image sys_stat image_file fuel s₁ dir ≡ none)
  Ended s items (some (s', none)) = HasGrown s s' × AllMounted s items s'
  Ended s items (some (s', some reason)) = HasGrown s s' × Stops s items reason
