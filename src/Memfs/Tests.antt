-- ===== src/Memfs/Tests.antt =====
-- The theorems on the search, on the sample images.
use libdwarfs.Prelude.{◌≡◌, refl, none, [], ◌∷◌, ascii, bytes_eq, arith, true}
use libdwarfs.Prelude.Maps.{find}
use libdwarfs.Paths.{
  lexically_normal, normal_loop, normal_step, climb, closing, parse, split, names,
}
use libdwarfs.MountTable as MountTable
use libdwarfs.Memfs.Find.{find_inode}
use libdwarfs.Memfs.Samples.{one_file, one_link, holding}
use libdwarfs.Memfs.Walk.{IsLinkFree, IsUnmounted, IsSelfLink, find_inode_link_loop}

one_file-IsLinkFree : IsLinkFree one_file
one_file-IsLinkFree = record { reads = λ v. refl; plain = λ v. ground arith }

none_mounted : IsUnmounted []
unfolding MountTable.get find
none_mounted inode e = refl

one_link-IsSelfLink : IsSelfLink (holding one_link) 0 (ascii "l")
unfolding lexically_normal normal_loop normal_step climb closing parse split names bytes_eq
one_link-IsSelfLink = record {
  child = 1;
  entry = refl;
  reads = refl;
  link = refl;
  target = refl;
  name = refl;
  plain = refl;
  relative = refl;
}

find_inode_link_loop_example :
    find_inode [] [] true 1000 (holding one_link) 0 (ascii "l" ∷ []) [] ≡ none
find_inode_link_loop_example =
    find_inode_link_loop [] [] 1000 (holding one_link) 0 0 [] (ascii "l") refl refl refl
      one_link-IsSelfLink none_mounted
