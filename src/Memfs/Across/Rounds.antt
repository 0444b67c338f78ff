-- ===== src/Memfs/Across/Rounds.antt =====
-- The search over all mounted images, against the walk across their mount points.
use libdwarfs.Prelude.{
  ℕ, zero, suc, ◌<◌, ◌≡◌, ◌⊎◌, ◌∙◌, ap, sym, subst, refl, Bool, true, none, some, List, [], ◌∷◌,
  Bytes, length, arith, Option-cases, inl, inr,
}
use libdwarfs.Paths.{parse, append_all, is_absolute}
use libdwarfs.Paths.Append.{AllPlain, append_all-plain, normal-absolute}
use libdwarfs.Memfs.State.{Memfs}
use libdwarfs.MemfsTable as MemfsTable
use libdwarfs.MemfsTable.{MemfsTable}
use libdwarfs.MountTable as MountTable
use libdwarfs.MountTable.{MountTable, path, memfs}
use libdwarfs.Memfs.Find.{
  inode_of, process_link, finish, enter, cross, descend, find_loop, find_inode,
}
use libdwarfs.Memfs.Walk.{IsLinkFree, arrived, process_plain}
use libdwarfs.Memfs.Across.{
  walk_across, IsPlainTree, landed, across-missing, across-child, across-path, across-unmounted,
  across-rootless, across-mounted,
}

target_cases :
    (t : MountTable.MountTarget)
    → ((target : Bytes) × (t ≡ path target)) ⊎ ((index : ℕ) × (t ≡ memfs index))
target_cases (path target) = inl (target, refl)
target_cases (memfs index) = inr (index, refl)

module _ (mounts : MountTable) (systems : MemfsTable) (follow : Bool) where
  -- The loop with this fuel walks.
  abbrev Walks : ℕ → Type 0
  Walks fuel =
      (m : Memfs) (view : ℕ) (lnk : Bytes) (es : List Bytes)
      → IsLinkFree m.fs
      → AllPlain es
      → length es < fuel
      → find_loop mounts systems follow fuel m view (arrived m lnk view es)
        ≡ some (landed lnk (walk_across mounts systems m view es))

  module _ (fuel : ℕ) (ih : Walks fuel) (m : Memfs) (view : ℕ) (lnk e : Bytes) (es : List Bytes)
      (a : AllPlain (e ∷ es)) (f : length es < fuel) where
    round_down :
        IsLinkFree m.fs
        → MountTable.get mounts (inode_of m view, e) ≡ none
        → find_loop mounts systems follow (suc fuel) m view (arrived m lnk view (e ∷ es))
          ≡ some (landed lnk (walk_across mounts systems m view (e ∷ es)))
    unfolding find_loop descend
    round_down h n = elim (Option-cases (m.fs.find_at (inode_of m view) e)) [
      | inl c ↦
          rw (find_loop, a.0, n, across-missing mounts systems m view e es n c, descend, c) refl
      | inr (child, c) ↦
          rw
            (
              find_loop,
              a.0,
              n,
              across-child mounts systems m view e es child n c,
              descend,
              c,
              process_plain m child follow lnk (e ∷ es) h,
            )
            (ih m child lnk es h a.2 f)
    ]

    round_path :
        (text : Bytes)
        → MountTable.get mounts (inode_of m view, e) ≡ some (path text)
        → is_absolute (parse text) ≡ true
        → find_loop mounts systems follow (suc fuel) m view (arrived m lnk view (e ∷ es))
          ≡ some (landed lnk (walk_across mounts systems m view (e ∷ es)))
    unfolding find_loop cross process_link finish
    round_path text g absolute =
        rw
          (
            find_loop,
            a.0,
            g,
            across-path mounts systems m view e es text g,
            cross,
            process_link,
            normal-absolute (parse text) es absolute,
            finish,
          )
          refl

    enters :
        (other : Memfs) (top : ℕ)
        → IsLinkFree other.fs
        → other.fs.find other.dwarfs_root_inode ≡ some top
        → enter
            (find_loop mounts systems follow fuel)
            other
            other.dwarfs_root_inode
            (append_all [] es)
            follow
            lnk
          ≡ some (landed lnk (walk_across mounts systems other top es))
    unfolding enter
    enters other top plain n =
        subst
          (λ p.
            enter (find_loop mounts systems follow fuel) other other.dwarfs_root_inode p follow lnk
            ≡ some (landed lnk (walk_across mounts systems other top es)))
          (sym (append_all-plain es a.2))
          (rw (enter, n, process_plain other top follow lnk es plain)
            (ih other top lnk es plain a.2 f))

    round_mounted :
        (index : ℕ)
        → ((other : Memfs) → MemfsTable.get systems index ≡ some other → IsLinkFree other.fs)
        → MountTable.get mounts (inode_of m view, e) ≡ some (memfs index)
        → find_loop mounts systems follow (suc fuel) m view (arrived m lnk view (e ∷ es))
          ≡ some (landed lnk (walk_across mounts systems m view (e ∷ es)))
    unfolding find_loop cross enter
    round_mounted index plain g = elim (Option-cases (MemfsTable.get systems index)) [
      | inl s ↦
          rw (find_loop, a.0, g, across-unmounted mounts systems m view e es index g s, cross, s)
            refl
      | inr (other, s) ↦ elim (Option-cases (other.fs.find other.dwarfs_root_inode)) [
        | inl n ↦
            rw
              (
                find_loop,
                a.0,
                g,
                across-rootless mounts systems m view e es index other g s n,
                cross,
                s,
                enter,
                n,
              )
              refl
        | inr (top, n) ↦
            rw
              (
                find_loop,
                a.0,
                g,
                across-mounted mounts systems m view e es index other top g s n,
                cross,
                s,
              )
              (enters other top (plain other s) n)
      ]
    ]

  loop_across : (fuel : ℕ) → IsPlainTree mounts systems → Walks fuel
  unfolding find_loop
  loop_across zero t m view lnk es h a f = absurd (omega arith)
  loop_across (suc fuel) t m view lnk [] h a f = unfold finish in refl
  loop_across (suc fuel) t m view lnk (e ∷ es) h a f =
      let ih = loop_across fuel t in
      let short : length es < fuel = omega arith in
      elim (Option-cases (MountTable.get mounts (inode_of m view, e))) [
        | inl n ↦ round_down fuel ih m view lnk e es a short h n
        | inr (target, g) ↦ elim (target_cases target) [
          | inl (text, p) ↦
              let to_path = g ∙ ap some p in
              round_path fuel ih m view lnk e es a short text to_path
                (t.absolute (inode_of m view) e text to_path)
          | inr (index, p) ↦
              round_mounted fuel ih m view lnk e es a short index (t.link_free index)
                (g ∙ ap some p)
        ]
      ]

  -- In images without symbolic links, and with rules that name absolute paths of the system: from an
  -- inode that is there, along a path of plain elements, and with more fuel than the path has
  -- elements, the search ends. It gives the attributes of the inode that the walk across the mount
  -- points reaches, fails with ENOENT where an entry, an image or its root is missing, and gives the
  -- path of the system where a rule leads out.
  pub find_inode_across :
      (fuel : ℕ) (m : Memfs) (start_from view : ℕ) (lnk : Bytes) (es : List Bytes)
      → m.fs.find start_from ≡ some view
      → IsLinkFree m.fs
      → IsPlainTree mounts systems
      → AllPlain es
      → length es < fuel
      → find_inode mounts systems follow fuel m start_from es lnk
        ≡ some (landed lnk (walk_across mounts systems m view es))
  unfolding find_inode enter
  find_inode_across fuel m start_from view lnk es s h t a f =
      rw (find_inode, enter, s, process_plain m view follow lnk es h)
        (loop_across fuel t m view lnk es h a f)
