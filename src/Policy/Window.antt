-- ===== src/Policy/Window.antt =====
-- Quiet-hours windows on a wall clock (`next_window_end` and `_covers` of
-- backend/src/tiber/domain/policies/rules.py).
use tiber.Prelude.{ℕ, ◌+◌, ◌*◌, ◌/◌, ◌%◌, Bool, ◌&&◌, ◌||◌, leb, if◌then◌else◌}
use tiber.Time.{seconds, day}
use tiber.Recipient.{QuietHours}

-- GRACE_MINUTES
abbrev pub grace : ℕ
grace = 5 * 60 * 1_000_000

-- `window.window_end` with `microsecond=0`
abbrev pub end_second : QuietHours → ℕ
end_second window = window.window_end / seconds * seconds

-- On the wall clock of the zone, where `replace` keeps the date.
unfoldable pub next_window_end : QuietHours → ℕ → ℕ
next_window_end window local =
    let candidate = local / day * day + end_second window in
    if leb candidate local then candidate + day else candidate

-- `_covers` of a time of day
unfoldable pub covers_time : QuietHours → ℕ → Bool
covers_time window t =
    if leb window.window_start window.window_end
    then leb window.window_start t && leb t window.window_end
    else leb window.window_start t || leb t window.window_end

-- `_covers(window, local.time())`
abbrev pub covers : QuietHours → ℕ → Bool
covers window wall = covers_time window (wall % day)
