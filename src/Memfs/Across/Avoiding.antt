-- ===== src/Memfs/Across/Avoiding.antt =====
-- A walk that stays away from the one mount point there is.
use libdwarfs.Prelude.{
  ℕ, ◌≡◌, ◌≢◌, ◌∙◌, sym, refl, none, some, List, [], ◌∷◌, ◌++◌, Bytes, Option-cases, inl, inr,
}
use libdwarfs.Memfs.State.{Memfs}
use libdwarfs.MemfsTable.{MemfsTable}
use libdwarfs.MountTable as MountTable
use libdwarfs.MountTable.{MountTable, MountPoint}
use libdwarfs.Memfs.Find.{inode_of}
use libdwarfs.Memfs.Walk.{walk, walk-none, walk-some}
use libdwarfs.Memfs.Across.{walk_across, across-child}

-- No entry on the way is the mount point.
abbrev pub Avoids : MountPoint → Memfs → ℕ → List Bytes → Type 0
Avoids at m view [] = Unit {0}
Avoids at m view (e ∷ es) =
    (at ≢ (inode_of m view, e))
    × ((child : ℕ) → m.fs.find_at (inode_of m view) e ≡ some child → Avoids at m child es)

abbrev pub OnlyAt : MountTable → MountPoint → Type 0
OnlyAt mounts at = (q : MountPoint) → at ≢ q → MountTable.get mounts q ≡ none

-- Up to where it stays away, the walk across the mount points is the walk in one image.
pub walk_across-Avoids :
    (mounts : MountTable) (systems : MemfsTable) (at : MountPoint) (m : Memfs) (view v : ℕ)
    (es rest : List Bytes)
    → OnlyAt mounts at
    → Avoids at m view es
    → walk m view es ≡ some v
    → walk_across mounts systems m view (es ++ rest) ≡ walk_across mounts systems m v rest
walk_across-Avoids mounts systems at m view v [] rest o a w = let e : view ≡ v = cc in rw e refl
walk_across-Avoids mounts systems at m view v (e ∷ es) rest o a w =
    elim (Option-cases (m.fs.find_at (inode_of m view) e)) [
      | inl n ↦ absurd (cc (walk-none m view e es n, w))
      | inr (child, c) ↦
          across-child mounts systems m view e (es ++ rest) child (o (inode_of m view, e) a.0) c
          ∙ walk_across-Avoids mounts systems at m child v es rest o (a.1 child c)
              (sym (walk-some m view child e es c) ∙ w)
    ]
