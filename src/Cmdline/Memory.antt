-- ===== src/Cmdline/Memory.antt =====
-- The arguments that are built fit the memory that is allocated for them.
use libdwarfs.Prelude.{
  ℕ, ◌+◌, ◌≡◌, refl, ap, sym, subst, ◌∙◌, ◌≢◌, ◌==◌, List, [], ◌∷◌, ◌++◌, Bytes, ascii, length,
  length-append, map, arith, drop, if◌then◌else◌, append_assoc,
}
use libdwarfs.Cmdline.{
  Argv, put, put_all, blank, size_of, build_arguments_for_run, build_arguments_for_extract,
}

-- The C string at an offset.
abbrev pub until_zero : Bytes → Bytes
until_zero [] = []
until_zero (c ∷ s) = if c == 0 then [] else c ∷ until_zero s

abbrev pub string_at : Bytes → ℕ → Bytes
string_at memory off = until_zero (drop off memory)

abbrev pub IsText : Bytes → Type 0
IsText [] = Unit {0}
IsText (c ∷ s) = (c ≢ 0) × IsText s

abbrev pub AllText : List Bytes → Type 0
AllText [] = Unit {0}
AllText (s ∷ ss) = IsText s × AllText ss

abbrev pub onto : List Bytes → List Bytes → List Bytes
onto [] ys = ys
onto (x ∷ xs) ys = onto xs (x ∷ ys)

-- The strings, the last one first, that the offsets stand for, whatever follows in the memory.
abbrev pub Holds : Argv → List Bytes → Type 0
Holds a ss = (tail : Bytes) → map (string_at (a.memory ++ tail)) a.offsets ≡ ss

drop-length : (xs ys : Bytes) → drop (length xs) (xs ++ ys) ≡ ys
drop-length [] ys = refl
drop-length (x ∷ xs) ys = drop-length xs ys

until_zero-text : (s tail : Bytes) → IsText s → until_zero (s ++ 0 ∷ tail) ≡ s
until_zero-text [] tail t = refl
until_zero-text (c ∷ s) tail t = ground (arith, until_zero-text s tail t.1)

memory-put :
    (s : Bytes) (a : Argv) (tail : Bytes) → (put s a).memory ++ tail ≡ a.memory ++ (s ++ 0 ∷ tail)
unfolding put
memory-put s a tail =
    append_assoc (a.memory ++ s) (0 ∷ []) tail ∙ append_assoc a.memory s (0 ∷ tail)

length-put : (s : Bytes) (a : Argv) → length (put s a).memory ≡ length a.memory + length s + 1
unfolding put
length-put s a = omega (arith, length-append (a.memory ++ s) (0 ∷ []), length-append a.memory s)

put-Holds :
    (s : Bytes) (a : Argv) (ss : List Bytes) → IsText s → Holds a ss → Holds (put s a) (s ∷ ss)
unfolding put
put-Holds s a ss t h tail =
    subst (λ memory. map (string_at memory) (length a.memory ∷ a.offsets) ≡ s ∷ ss)
      (sym (memory-put s a tail))
      (rw (drop-length a.memory (s ++ 0 ∷ tail), until_zero-text s tail t)
        (ap (λ xs. s ∷ xs) (h (s ++ 0 ∷ tail))))

put_all-Holds :
    (ss : List Bytes) (a : Argv) (before : List Bytes)
    → AllText ss
    → Holds a before
    → Holds (put_all ss a) (onto ss before)
unfolding put_all
put_all-Holds [] a before t h = h
put_all-Holds (s ∷ ss) a before t h =
    put_all-Holds ss (put s a) (s ∷ before) t.1 (put-Holds s a before t.0 h)

length-put_all :
    (ss : List Bytes) (a : Argv) → length (put_all ss a).memory ≡ length a.memory + size_of ss
unfolding put_all size_of
length-put_all [] a = omega arith
length-put_all (s ∷ ss) a = omega (arith, length-put_all ss (put s a), length-put s a)

-- For strings without zero bytes, the arguments of a run are the first one, the mount point and the entry point in one string, and the
-- others in their order. They are read back from the memory, which is written to its last byte and
-- not further.
pub build_arguments_for_run_lem :
    (first : Bytes) (rest : List Bytes) (fs_mount_point fs_entry_point : Bytes)
    → IsText first
    → AllText rest
    → IsText (fs_mount_point ++ fs_entry_point)
    → let r = build_arguments_for_run first rest fs_mount_point fs_entry_point in
      (length r.1.memory ≡ r.0)
      × (map (string_at (r.1.memory ++ [])) r.1.offsets
          ≡ onto rest ((fs_mount_point ++ fs_entry_point) ∷ first ∷ []))
unfolding build_arguments_for_run size_of
build_arguments_for_run_lem first rest mount entry f t m =
    let two = put (mount ++ entry) (put first blank) in
    (
      omega (
        arith,
        length-put_all rest two,
        length-put (mount ++ entry) (put first blank),
        length-put first blank,
        length-append mount entry,
      ),
      put_all-Holds rest two ((mount ++ entry) ∷ first ∷ []) t
          (put-Holds (mount ++ entry) (put first blank) (first ∷ []) m
            (put-Holds first blank [] f (λ tail. refl)))
          [],
    )

-- The arguments of an extraction are written to the last byte of their memory and not further.
pub build_arguments_for_extract_lem :
    (program fs_mount_point extract_folder : Bytes)
    → let r = build_arguments_for_extract program fs_mount_point extract_folder in
      length r.1.memory ≡ r.0
unfolding build_arguments_for_extract
build_arguments_for_extract_lem program mount folder =
    let cmd =
      ascii "require 'fileutils'; FileUtils.copy_entry '"
      ++ mount
      ++ ascii "', '"
      ++ folder
      ++ ascii "'" in
    omega (
      arith,
      length-put cmd (put (ascii "-e") (put program blank)),
      length-put (ascii "-e") (put program blank),
      length-put program blank,
    )
