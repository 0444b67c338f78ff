-- ===== src/Mfs/Tests.antt =====
-- The theorem for an image of three pages.
use libdwarfs.Prelude.{◌+◌, ◌≤◌, ◌≡◌, arith}
use libdwarfs.Mfs.{Mfs, release_range, release_until_range, page_start, release_tiles}

abbrev three_pages : Mfs
three_pages = record { size = 12288; addr = 65536; page_size = 4096 }

release_tiles_example :
    let first = release_range three_pages 100 5000 in
    let second = release_range three_pages 5100 4000 in
    let before = release_until_range three_pages 100 in
    (before.0 + before.1 ≡ first.0)
    × (first.0 + first.1 ≡ second.0)
    × (second.0 + second.1 ≡ 65536 + page_start three_pages 9100)
    × (second.0 + second.1 ≤ 77824)
release_tiles_example = release_tiles three_pages 100 5000 4000 (omega arith) (omega arith)
