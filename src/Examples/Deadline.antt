-- ===== src/Examples/Deadline.antt =====
-- A wait of 2.5 seconds that begins late in a second.
use lua_mtint.Base.{◌+◌, ◌*◌, ◌<◌, ◌≡◌}
use lua_mtint.Deadline.{billion, deadline, nanos, nanos-deadline}

nanos-deadline_example :
    ((deadline 7 900000 2500).tv_nsec < billion)
    × (nanos (deadline 7 900000 2500) ≡ 7 * billion + 900000 * 1000 + 2500 * (1000 * 1000))
nanos-deadline_example = nanos-deadline 7 900000 2500
