-- ===== src/Fleet/History.antt =====
-- oop_fleet/fleet.cpp: the range of time in Fleet::ViewHistoricalData; ground_station/main.cpp: the
-- default of its range, and the order of its ends.
use embedded_project_pc.Common.{ℕ, ◌-◌, ◌*◌, ◌%◌, ◌^◌, ◌≤◌, ◌<◌, ◌≡◌, ltb, if◌then◌else◌, arith}

-- `if (start > end) std::swap(start, end)`
unfoldable pub ordered : ℕ → ℕ → ℕ × ℕ
ordered start end = if ltb end start then (end, start) else (start, end)

-- So many hours before `now`; the hours are the 32 bits of an int.
unfoldable pub hours_back : ℕ → ℕ → ℕ
hours_back hours now = let ago = (hours * 3600) % 2 ^ 32 in if ltb now ago then 0 else now - ago

unfoldable pub history_range : ℕ → ℕ → ℕ → ℕ × ℕ
unfolding ordered hours_back
history_range hours_start hours_end now =
    ordered (hours_back hours_start now) (hours_back hours_end now)

-- A day before `now`, or 0.
unfoldable pub default_start : ℕ → ℕ
default_start now = if ltb 86400 now then now - 86400 else 0

-- Whatever hours are given, the range does not end before it starts, nor after now.
pub history_range-ordered :
    (hours_start hours_end now : ℕ)
    → ((history_range hours_start hours_end now).0 ≤ (history_range hours_start hours_end now).1)
      × ((history_range hours_start hours_end now).1 ≤ now)
unfolding history_range ordered hours_back
history_range-ordered hours_start hours_end now = ground arith

-- Hours that lie before now and fit 32 bits as seconds, the earlier first, give just this range.
pub history_range-hours :
    (hours_start hours_end now : ℕ)
    → hours_end ≤ hours_start
    → hours_start * 3600 ≤ now
    → now < 2 ^ 32
    → history_range hours_start hours_end now ≡ (now - hours_start * 3600, now - hours_end * 3600)
unfolding history_range ordered hours_back
history_range-hours hours_start hours_end now h k u = ground arith
