-- ===== src/Policy/Resume.antt =====
-- When a postponed notification resumes (`next_window_end` of
-- backend/src/tiber/domain/policies/rules.py).
use tiber.Prelude.{ℕ, ◌+◌, ◌%◌, ◌≤◌, ◌<◌, ◌≡◌, ◌≢◌, false, arith, [], ◌∷◌}
use tiber.Time.{seconds, day}
use tiber.Platform.{Zone, Platform, astimezone}
use tiber.Recipient.{QuietHours}
use tiber.Policy.{resume_time, check_quiet_hours, allow}
use tiber.Policy.Window.{grace, next_window_end, covers_time, covers}

-- A time of day: `time` objects are less than a day.
pub record IsTimes (window : QuietHours) : Type 0 where
  pub start_below : window.window_start < day
  pub end_below : window.window_end < day

-- For a window of times of day that ends on a whole second, and a wall-clock time `local` that is
-- not exactly at the end, the next end is the first time at or after `local` that is at the time of
-- day at which the window ends.
pub next_window_end_lem :
    (window : QuietHours) (local : ℕ)
    → IsTimes window
    → window.window_end % seconds ≡ 0
    → local % day ≢ window.window_end
    → (local ≤ next_window_end window local)
      × (next_window_end window local % day ≡ window.window_end)
      × ((t : ℕ) → local ≤ t → t % day ≡ window.window_end → next_window_end window local ≤ t)
unfolding next_window_end
next_window_end_lem window local h whole apart =
    (ground arith, ground arith, λ t later at_end. ground arith)

-- Exactly at the end of such a window, the next end is a day later.
next_window_end-at_end :
    (window : QuietHours) (local : ℕ)
    → IsTimes window
    → window.window_end % seconds ≡ 0
    → local % day ≡ window.window_end
    → next_window_end window local ≡ local + day
unfolding next_window_end
next_window_end-at_end window local h whole e = ground arith

-- The window leaves more than the grace free each day.
pub record HasGap (window : QuietHours) : Type 0 where
  pub gap :
      (window.window_start ≤ window.window_end
        → window.window_end + grace < window.window_start + day)
      × (window.window_end < window.window_start → window.window_end + grace < window.window_start)
  pub whole : window.window_end % seconds ≡ 0

-- The time that a postponed send resumes at is outside the window.
pub resumed-not_covered :
    (window : QuietHours) (local : ℕ)
    → IsTimes window
    → HasGap window
    → covers window (next_window_end window local + grace) ≡ false
unfolding next_window_end covers_time
resumed-not_covered window local h g = ground arith

-- At the resume time that a window gives, the window does not postpone again, if it leaves more than
-- the grace free each day, ends on a whole second, and the zone has that wall-clock time.
pub check_quiet_hours-resume :
    (p : Platform) (zone : Zone) (w : QuietHours) (wall : ℕ)
    → IsTimes w
    → HasGap w
    → zone.local (zone.instant (next_window_end w wall + grace)) ≡ next_window_end w wall + grace
    → check_quiet_hours p zone w.channel (astimezone p zone (resume_time zone w wall)) (w ∷ [])
      ≡ allow
unfolding check_quiet_hours resume_time
check_quiet_hours-resume p zone w wall t g e =
    rw e (rw (resumed-not_covered w wall t g) (ground arith))
