-- ===== src/Log/Bounds.antt =====
-- What bounds the lists of messages and samples of the dashboard (frontend/src/main.tsx).
use channel_wire.Prelude.{ℕ, ◌*◌, ◌≤◌, List, length, length-append, length-slice_last, arith}
use channel_wire.Types.{ChatLine, PlatformStats, CoreStats}
use channel_wire.World.{World}
use channel_wire.Log.{
  Line, message_limit, push_line, replace_messages, percent, record_monitor_sample,
}

pub length-push_line :
    (line : Line) (w : World) → length (push_line line w).page.messages ≤ message_limit
unfolding push_line
length-push_line line w = omega (arith, length-append {0}, length-slice_last {0} 79 w.page.messages)

pub length-replace_messages :
    (lines : List ChatLine) (w : World)
    → length (replace_messages lines w).page.messages ≤ message_limit
unfolding replace_messages
length-replace_messages lines w = omega (arith, length-slice_last {0} 80 lines)

pub length-record_monitor_sample :
    (platform : PlatformStats) (core : CoreStats) (w : World)
    → length (record_monitor_sample platform core w).page.monitor_samples ≤ 30
unfolding record_monitor_sample
length-record_monitor_sample platform core w =
    omega (arith, length-append {0}, length-slice_last {0} 29 w.page.monitor_samples)

-- A percentage lies between 0 and 100, whatever is counted.
pub percent-le : (part whole : ℕ) → ((percent part whole).parts ≤ 100 * (percent part whole).per)
unfolding percent
percent-le part whole = ground arith
