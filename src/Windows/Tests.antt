-- ===== src/Windows/Tests.antt =====
-- The Windows forms at sample inputs.
use libdwarfs.Prelude.{pos, negsuc, ◌≡◌, ◌≢◌, refl, true, false, ascii, starts_with, arith}
use libdwarfs.Errno.{enoent, erofs}
use libdwarfs.Windows.Errors.{
  operand, choice, set_last_error, both, error_file_not_found, set_last_error-choice, documented,
}
use libdwarfs.Windows.MountPoint.{is_tebako_path, is_tebako_path_w}
use libdwarfs.Windows.Attributes.{to_unsigned, to_signed}

-- A file that is not there, and the refusal of a call that would write.
not_found : set_last_error (operand enoent) ≡ both enoent error_file_not_found
unfolding set_last_error
not_found = refl

set_last_error-choice_example :
    (set_last_error (operand enoent) ≡ both enoent (documented enoent))
    × (set_last_error (choice false erofs enoent) ≡ both enoent (documented enoent))
    × ((set_last_error (choice true erofs enoent)).errno ≡ erofs)
    × ((set_last_error (choice true erofs enoent)).last_error ≢ documented erofs)
set_last_error-choice_example =
    set_last_error-choice erofs enoent (λ e. ground arith) (λ e. ground arith)

both_spellings :
    (is_tebako_path (ascii "A:/__tebako_memfs__/x") ≡ true)
    × (is_tebako_path_w (ascii "A:\\__tebako_memfs__") ≡ negsuc 0)
    × (is_tebako_path (ascii "a:/__tebako_memfs__") ≡ false)
unfolding is_tebako_path is_tebako_path_w starts_with
both_spellings = (refl, refl, refl)

-- A link count of 40000 does not fit.
wrapped : to_signed 15 (pos 40000) ≡ negsuc 25535
unfolding to_signed to_unsigned
wrapped = refl
