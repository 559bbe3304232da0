-- ===== src/Monitor/Bounds.antt =====
-- What the panels of frontend/src/main.tsx show stays within its bounds.
use channel_wire.Prelude.{ℕ, suc, ◌+◌, ◌-◌, ◌*◌, ◌≤◌, ◌<◌, List, [], ◌∷◌, length, ◌≡◌, arith}
use native.Mathlib.Nat.{one-le-mul, mul-le-mul_left, le_of_mul-le-mul_left}
use channel_wire.Types.{PlatformStats, CoreStats, ChatLine, Percent}
use channel_wire.Prelude.{String, Option}
use channel_wire.Json.{Codec}
use channel_wire.Log.{percent, message_limit}
use channel_wire.Loop.{Event, run}
use channel_wire.Loop.Start.{start}
use channel_wire.Safety.Reached
use channel_wire.Monitor.{
  monitoring, whole, count, stats, larger, greatest, Point, abscissa, ordinate, draw_from,
  sparkline, width, height,
}

-- The chat messages and the direct messages that are counted are among the lines that are shown.
stats_bounded :
    (lines : List ChatLine) → (stats lines).messages + (stats lines).direct ≤ (stats lines).events
unfolding stats count
stats_bounded [] = omega arith
stats_bounded (line ∷ lines) = grind (arith, stats_bounded lines)

abbrev pub Below : Percent → Percent → Type 0
Below m v = v.parts * m.per ≤ m.parts * v.per

abbrev pub ArePositive : List Percent → Type 0
ArePositive [] = Unit
ArePositive (v ∷ vs) = (0 < v.per) × ArePositive vs

-- With the products ordered alike.
chain : (a c e a' c' e' : ℕ) → a * c' ≤ c * a' → c * e' ≤ e * c' → c' * (a * e') ≤ c' * (e * a')
chain a c e a' c' e' ac ce = omega (arith, mul-le-mul_left e' ac, mul-le-mul_left a' ce)

Below-trans : (a c e : Percent) → 0 < c.per → Below c a → Below e c → Below e a
Below-trans a c e pos ac ce =
    le_of_mul-le-mul_left (chain a.parts c.parts e.parts a.per c.per e.per ac ce) pos

abbrev pub InView : Point → Type 0
InView p =
    (p.x.parts ≤ width * p.x.per)
    × (0 < p.y.per)
    × (2 * p.y.per ≤ p.y.parts)
    × (p.y.parts ≤ (height - 2) * p.y.per)

ordinate-within :
    (m v : Percent)
    → Below m v
    → (2 * (ordinate m v).per ≤ (ordinate m v).parts)
      × ((ordinate m v).parts ≤ 40 * (ordinate m v).per)
unfolding ordinate
ordinate-within m v below = omega arith

abbrev AllBelow : Percent → List Percent → Type 0
AllBelow m [] = Unit
AllBelow m (v ∷ vs) = Below m v × AllBelow m vs

AllBelow-trans :
    (m m' : Percent) (vs : List Percent) → 0 < m.per → Below m' m → AllBelow m vs → AllBelow m' vs
AllBelow-trans m m' [] pos le all = tt
AllBelow-trans m m' (v ∷ vs) pos le all =
    (Below-trans v m m' pos all.0 le, AllBelow-trans m m' vs pos le all.1)

larger-Below : (v m : Percent) → Below (larger v m) v × Below (larger v m) m
unfolding larger
larger-Below v m = ground arith

larger-positive : (v m : Percent) → 0 < v.per → 0 < m.per → 0 < (larger v m).per
unfolding larger
larger-positive v m pv pm = ground arith

greatest-positive : (vs : List Percent) → ArePositive vs → 0 < (greatest vs).per
unfolding greatest
greatest-positive [] all = omega arith
greatest-positive (v ∷ vs) all = larger-positive v (greatest vs) all.0 (greatest-positive vs all.1)

greatest-AllBelow : (vs : List Percent) → ArePositive vs → AllBelow (greatest vs) vs
unfolding greatest
greatest-AllBelow [] all = tt
greatest-AllBelow (v ∷ vs) all =
    let le = larger-Below v (greatest vs) in
    (
      le.0,
      AllBelow-trans (greatest vs) (larger v (greatest vs)) vs (greatest-positive vs all.1) le.1
          (greatest-AllBelow vs all.1),
    )

abscissa-within :
    (n index : ℕ) → index < n → (abscissa n index).parts ≤ width * (abscissa n index).per
unfolding abscissa
abscissa-within n index less = ground arith

abbrev pub AreInView : List Point → Type 0
AreInView [] = Unit
AreInView (p ∷ points) = InView p × AreInView points

draw_from-AreInView :
    (n index : ℕ) (m : Percent) (vs : List Percent)
    → index + length vs ≡ n
    → 0 < m.parts
    → ArePositive vs
    → AllBelow m vs
    → AreInView (draw_from n index m vs)
unfolding draw_from ordinate
draw_from-AreInView n index m [] e pos all below = tt
draw_from-AreInView n index m (v ∷ vs) e pos all below =
    let y = ordinate-within m v below.0 in
    (
      (abscissa-within n index (omega arith), one-le-mul all.0 pos, y.0, y.1),
      draw_from-AreInView n (suc index) m vs (omega arith) pos all.1 below.1,
    )

one-Below-greatest : (vs : List Percent) → ArePositive vs → Below (greatest vs) (whole 1)
unfolding greatest
one-Below-greatest [] all = omega arith
one-Below-greatest (v ∷ vs) all =
    Below-trans (whole 1) (greatest vs) (larger v (greatest vs)) (greatest-positive vs all.1)
      (one-Below-greatest vs all.1) (larger-Below v (greatest vs)).1

-- Every point that a sparkline plots, for values that are fractions with a denominator above 0, lies
-- in its view box, `x` between 0 and 160, `y` between 2 and 40, and no division is by 0.
pub sparkline-AreInView : (vs : List Percent) → ArePositive vs → AreInView (sparkline vs)
unfolding sparkline
sparkline-AreInView vs all =
    let above = one-Below-greatest vs all in
    let denominator = greatest-positive vs all in
    draw_from-AreInView (length vs) 0 (greatest vs) vs (omega arith) (omega arith) all
      (greatest-AllBelow vs all)

-- The share of a bar.
abbrev pub IsShare : Percent → Type 0
IsShare p = p.parts ≤ 100 * p.per

monitoring-IsShare :
    (platform : Option PlatformStats) (core : Option CoreStats)
    → let bars = monitoring platform core in
      IsShare bars.queue_pressure × IsShare bars.channel_share × IsShare bars.direct_share
unfolding monitoring percent
monitoring-IsShare platform core = ground arith

-- After any events the panels count at most 80 lines, of which the chat and the direct messages are
-- a part, and no bar is beyond 100 percent.
pub panels_bounded :
    (codec : Codec) (now : ℕ) (stamp : ℕ → ℕ) (stored : Option String) (events : List Event)
    → let w = run events (start codec now stamp stored) in
      let shown = stats w.page.messages in
      let bars = monitoring w.page.platform_stats w.page.core_stats in
      (shown.messages + shown.direct ≤ shown.events)
      × (shown.events ≤ message_limit)
      × IsShare bars.queue_pressure
      × IsShare bars.channel_share
      × IsShare bars.direct_share
unfolding stats
panels_bounded codec now stamp stored events =
    let w = run events (start codec now stamp stored) in
    let few = Reached.lists_and_attempts_bounded codec now stamp stored events 0 in
    let shares = monitoring-IsShare w.page.platform_stats w.page.core_stats in
    (stats_bounded w.page.messages, few.0, shares.0, shares.1, shares.2)
