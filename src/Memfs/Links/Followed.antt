-- ===== src/Memfs/Links/Followed.antt =====
-- The search in src/tebako-memfs.cpp finds what a path resolves to.
use libdwarfs.Prelude.{
  ℕ, suc, ◌+◌, ◌-◌, ◌<◌, ◌≡◌, ◌∙◌, ap, sym, subst, true, some, List, [], ◌∷◌, ◌++◌, Bytes, arith,
  append-nil,
}
use libdwarfs.Dwarfs.{Stat}
use libdwarfs.Paths.{FsPath, generic_string}
use libdwarfs.Paths.Ordinary.{AllEntries, append-AllEntries}
use libdwarfs.Memfs.State.{Memfs}
use libdwarfs.Memfs.Find.{Step, finish, enter, find_loop, find_inode}
use libdwarfs.Memfs.Walk.{arrived, reached}
use libdwarfs.Memfs.Links.{IsNode, Resolves, here, down, link, mounted, steps}
use libdwarfs.MemfsTable.{MemfsTable}
use libdwarfs.MountTable.{MountTable}
use libdwarfs.Memfs.Links.Rounds.{
  at, at-arrived, process_node, round_node, round_link, round_mounted,
}

module _ (mounts : MountTable) (systems : MemfsTable) where
  -- After this many rounds the loop is at the inode, with what is left of the path.
  abbrev Leads : ℕ → Memfs → ℕ → Step → Memfs → ℕ → FsPath → Type 0
  Leads n m view s m' w rest =
      (lnk' : Bytes) × ((fuel : ℕ)
        → find_loop mounts systems true (n + fuel) m view s
          ≡ find_loop mounts systems true fuel m' w (arrived m' lnk' w rest))

  more :
      (f g : ℕ) (m : Memfs) (v : ℕ) (s : Step)
      → f ≡ g
      → find_loop mounts systems true f m v s ≡ find_loop mounts systems true g m v s
  more f g m v s e = ap (λ k. find_loop mounts systems true k m v s) e

  arrived-Leads :
      (n : ℕ) (m m' : Memfs) (v w : ℕ) (lnk : Bytes) (es : List Bytes) (rest : FsPath)
      → Leads n m v (at m lnk (m.fs.getattr v).1 v es rest) m' w rest
      → Leads n m v (arrived m lnk v (es ++ rest)) m' w rest
  arrived-Leads n m m' v w lnk es rest =
      subst (λ s. Leads n m v s m' w rest) (at-arrived m lnk v es rest)

  -- One round, and the rounds from there.
  then-Leads :
      (k : ℕ) (m n m' : Memfs) (v u w : ℕ) (s s' : Step) (rest : FsPath)
      → ((fuel : ℕ)
          → find_loop mounts systems true (suc fuel) m v s
            ≡ find_loop mounts systems true fuel n u s')
      → Leads k n u s' m' w rest
      → Leads (suc k) m v s m' w rest
  then-Leads k m n m' v u w s s' rest round (lnk', h) = (
    lnk',
    λ fuel. more (suc k + fuel) (suc (k + fuel)) m v s (omega arith) ∙ round (k + fuel) ∙ h fuel,
  )

  Leads-Leads :
      (k j : ℕ) (m n m' : Memfs) (v u w : ℕ) (s : Step) (p rest : FsPath)
      → Leads k m v s n u p
      → ((lnk : Bytes) → Leads j n u (arrived n lnk u p) m' w rest)
      → Leads (k + j) m v s m' w rest
  Leads-Leads k j m n m' v u w s p rest (lnk, f) go =
      let (lnk', g) = go lnk in
      (
        lnk',
        λ fuel. more (k + j + fuel) (k + (j + fuel)) m v s (omega arith) ∙ f (j + fuel) ∙ g fuel,
      )

  find_loop-Resolves :
      {m m' : Memfs} {v w : ℕ} {es : List Bytes} (d : Resolves mounts systems m v es m' w)
      (rest : FsPath) (lnk : Bytes) (st : Stat)
      → AllEntries (es ++ rest)
      → Leads (steps mounts systems d) m v (at m lnk st v es rest) m' w rest
  unfolding steps
  find_loop-Resolves {m = m} {v = v} here rest lnk st a =
      (lnk, λ fuel. more (0 + fuel) fuel m v (arrived m lnk v rest) (omega arith))
  find_loop-Resolves {m = m} {m' = m'} {v = v} {w = w} {es = e ∷ es} (down child n c h r) rest lnk
        st a =
      then-Leads _ m m m' v child w _ _ rest
        (λ fuel. round_node mounts systems fuel m v lnk e st (es ++ rest) a child n c h)
        (arrived-Leads _ m m' child w lnk es rest (find_loop-Resolves r rest lnk _ a.1))
  find_loop-Resolves {m = m} {m' = m'} {v = v} {w = w} {es = e ∷ es}
        (link {n = n} {u = u} {t = t} {ts = ts} child none_there c h r q) rest lnk st a =
      let first =
        find_loop-Resolves r (es ++ rest) (generic_string (t ∷ ts ++ (es ++ rest)))
          (m.fs.getattr child).1 (append-AllEntries (t ∷ ts) (es ++ rest) h.entries a.1) in
      let second : (lnk' : Bytes)
          → Leads (steps mounts systems q) n u (arrived n lnk' u (es ++ rest)) m' w rest =
        λ lnk'. arrived-Leads _ n m' u w lnk' es rest (find_loop-Resolves q rest lnk' _ a.1) in
      then-Leads _ m m m' v v w _ _ rest
        (λ fuel.
          round_link mounts systems fuel m v lnk e st (es ++ rest) a child t ts none_there c h)
        (Leads-Leads (steps mounts systems r) (steps mounts systems q) m n m' v u w _ (es ++ rest)
          rest first second)
  find_loop-Resolves {m = m} {m' = m'} {v = v} {w = w} {es = e ∷ es}
        (mounted index top other g s n h r) rest lnk st a =
      then-Leads _ m other m' v top w _ _ rest
        (λ fuel.
          round_mounted mounts systems fuel m v lnk e st (es ++ rest) a index top other g s n h)
        (arrived-Leads _ other m' top w lnk es rest (find_loop-Resolves r rest lnk _ a.1))

  -- An inode that is there and no link, a path of entries other than "." and ".." that it resolves, and
  -- more fuel than the resolution has steps: the search ends, with the attributes of the inode that the
  -- path resolves to.
  pub find_inode-Resolves :
      (fuel : ℕ) (m m' : Memfs) (start_from view w : ℕ) (lnk : Bytes) (es : List Bytes)
      (d : Resolves mounts systems m view es m' w)
      → m.fs.find start_from ≡ some view
      → IsNode m.fs view
      → AllEntries es
      → steps mounts systems d < fuel
      → (lnk' : Bytes) × (find_inode mounts systems true fuel m start_from es lnk
          ≡ some (reached m' lnk' (some w)))
  unfolding find_inode enter find_loop finish
  find_inode-Resolves fuel m m' start_from view w lnk es d s h a enough =
      let k = steps mounts systems d in
      let left = fuel - suc k in
      let entries = subst AllEntries (sym (append-nil es)) a in
      let (lnk', g) =
        arrived-Leads k m m' view w lnk es [] (find_loop-Resolves d [] lnk _ entries) in
      (
        lnk',
        rw (find_inode, enter, s, process_node m view true lnk es h)
            (ap (λ p. find_loop mounts systems true fuel m view (arrived m lnk view p))
                (sym (append-nil es))
              ∙ more fuel (k + suc left) m view (arrived m lnk view (es ++ [])) (omega arith)
              ∙ g (suc left)),
      )

-- From an inode that is no link, a path never resolves to a link.
pub Resolves-IsNode :
    {mounts : MountTable} {systems : MemfsTable} {m m' : Memfs} {v w : ℕ} {es : List Bytes}
    → Resolves mounts systems m v es m' w
    → IsNode m.fs v
    → IsNode m'.fs w
Resolves-IsNode here h = h
Resolves-IsNode (down child n c h r) k = Resolves-IsNode r h
Resolves-IsNode (link child n c h r q) k = Resolves-IsNode q (Resolves-IsNode r k)
Resolves-IsNode (mounted index top other g s n h r) k = Resolves-IsNode r h
