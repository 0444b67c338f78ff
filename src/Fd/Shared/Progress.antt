-- ===== src/Fd/Shared/Progress.antt =====
-- Threads that read one descriptor all come to their end, whatever the schedule.
use libdwarfs.Prelude.{ℕ, suc, ◌+◌, ◌<◌, List, [], ◌∷◌, ◌==◌, if◌then◌else◌}
use libdwarfs.Root.{Root}
use libdwarfs.Fd.Shared.{Reader, waiting, read_at, adding, returned}

-- One thread for each size.
abbrev pub threads : List ℕ → List Reader
threads [] = []
threads (n ∷ ns) = waiting n ∷ threads ns

abbrev pub sum : List ℕ → ℕ
sum [] = 0
sum (n ∷ ns) = n + sum ns

abbrev pub AllBelow : ℕ → List ℕ → Type 0
AllBelow k [] = Unit {0}
AllBelow k (n ∷ ns) = (n < k) × AllBelow k ns

-- How often a schedule names a thread.
abbrev pub turns : ℕ → List ℕ → ℕ
turns i [] = 0
turns i (j ∷ schedule) = if j == i then suc (turns i schedule) else turns i schedule

abbrev asked : Reader → ℕ
asked (waiting n) = n
asked (read_at n out) = n
asked (adding n out seen) = n
asked (returned n out) = n

-- The turns that a thread has left at most.
abbrev left : Reader → ℕ
left (waiting n) = 3
left (read_at n out) = 2
left (adding n out seen) = 1
left (returned n out) = 0
