-- ===== src/History/SydneyTime.antt =====
-- history/sydney-date.util.ts: the hour of the day in Sydney and the peak hours. The hour that
-- `Intl.DateTimeFormat` prints for an instant rests on the time zone tables of the platform: it is
-- the parameter `intl_hour`, which may answer 24 for midnight.
use typescript_starter.Common.{ℕ, Bool, ◌&&◌, ◌||◌, leb, ◌==◌, if◌then◌else◌}

module _ (intl_hour : ℕ → ℕ) where
  unfoldable pub sydney_local_hour : ℕ → ℕ
  sydney_local_hour at = let parsed = intl_hour at in if parsed == 24 then 0 else parsed

unfoldable pub is_sydney_peak_hour : ℕ → Bool
is_sydney_peak_hour hour = leb 7 hour && leb hour 9 || leb 16 hour && leb hour 18
