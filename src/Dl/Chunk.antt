-- ===== src/Dl/Chunk.antt =====
-- One read of the copy loop of sync_tebako_dltable::map2file, and the bytes it leaves.
use libdwarfs.Prelude.{
  ℕ, ℤ, pos, zero, suc, ◌+◌, ◌≤◌, ◌≡◌, refl, ap, some, [], ◌∷◌, ◌++◌, Bytes, take, drop, length,
  arith,
}
use libdwarfs.Prelude.Maps.{find, int_eq}
use libdwarfs.Root.{Root}
use libdwarfs.System.{System}
use libdwarfs.Fd.State.{Fd, FdTable}
use libdwarfs.Fd.Read.{read}
use libdwarfs.Fd.Contents.{HasContent, chunk, moved, read_chunk, drop-drop}
use libdwarfs.FileIo.{tebako_read}
use libdwarfs.Dl.Foreign.{Host, read_file}
use libdwarfs.Dl.{bsize}

take_and_rest : (n : ℕ) (xs : Bytes) → take n xs ++ drop (length (take n xs)) xs ≡ xs
take_and_rest zero xs = refl
take_and_rest (suc n) [] = refl
take_and_rest (suc n) (x ∷ xs) = ap (◌∷◌ x) (take_and_rest n xs)

pub take_all : (n : ℕ) (xs : Bytes) → length xs ≤ n → take n xs ≡ xs
take_all zero [] h = refl
take_all zero (x ∷ xs) h = absurd (omega arith)
take_all (suc n) [] h = refl
take_all (suc n) (x ∷ xs) h = ap (◌∷◌ x) (take_all n xs (omega arith))

pub chunk-drop :
    (content : Bytes) (off n : ℕ)
    → chunk content off n ++ drop (off + length (chunk content off n)) content ≡ drop off content
chunk-drop content off n =
    rw (← drop-drop off (length (chunk content off n)) content) (take_and_rest n (drop off content))

module _ (sys : System) (host : Host sys) (root : Root) where
  open sys use {Os}

  -- One read of the loop.
  pub read_file-chunk :
      (content : Bytes) (fds : FdTable) (os : Os) (fh_in : ℤ) (fd : Fd)
      → HasContent root fd.st.st_ino content
      → find fh_in fds ≡ some fd
      → fd.position ≤ length content
      → let c = chunk content fd.position bsize in
        (fds' : FdTable) × (read_file sys host root fds os fh_in bsize
          ≡ (fds', os, (pos (length c), c)))
        × (find fh_in fds' ≡ some (moved fd (length c)))
  unfolding read_file tebako_read
  read_file-chunk content fds os fh_in fd h f low =
      let got =
        read_chunk root content fds fh_in fd bsize h f (omega arith) (omega (arith, h.fits)) in
      ((read root fds fh_in bsize).0, rw (read_file, tebako_read, got.0) refl, got.1)
