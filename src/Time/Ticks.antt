-- ===== src/Time/Ticks.antt =====
-- `to_ticks` and `set_from_ticks` undo one another, but for the leap second.
use libdynd.Common.{ℕ, ◌+◌, ◌*◌, ◌/◌, ◌%◌, ◌≤◌, ◌<◌, ◌≡◌, refl, ap, ◌∙◌, arith, true, if◌then◌else◌}
use libdynd.Common.Int.{ℤ, pos, negsuc, ◌+ℤ◌, ◌*ℤ◌, ◌≤ℤ◌, ◌<ℤ◌, ltb_ℤ, tdiv, tmod, narrow}
use libdynd.Time.{
  TimeHmst, hmst, ticks_per_second, ticks_per_minute, ticks_per_hour, ticks_per_day, is_valid,
  to_ticks, set_to_na, set_from_ticks,
}

-- The fields of a valid time, as natural numbers.
pub record IsTime (hour minute second tick : ℤ) : Type 0 where
  pub h : ℕ
  pub m : ℕ
  pub s : ℕ
  pub t : ℕ
  pub hour_eq : hour ≡ pos h
  pub minute_eq : minute ≡ pos m
  pub second_eq : second ≡ pos s
  pub tick_eq : tick ≡ pos t
  pub h_in : h < 24
  pub m_in : m < 60
  pub s_in : s ≤ 60
  pub t_in : t < ticks_per_second

pub is_valid-IsTime :
    (hour minute second tick : ℤ)
    → is_valid hour minute second tick ≡ true
    → IsTime hour minute second tick
unfolding is_valid
is_valid-IsTime (pos h) (pos m) (pos s) (pos t) v = record {
  h = h;
  m = m;
  s = s;
  t = t;
  hour_eq = refl;
  minute_eq = refl;
  second_eq = refl;
  tick_eq = refl;
  h_in = ground arith;
  m_in = ground arith;
  s_in = ground arith;
  t_in = ground arith;
}
is_valid-IsTime (negsuc h) m s t v = absurd (ground arith)
is_valid-IsTime (pos h) (negsuc m) s t v = absurd (ground arith)
is_valid-IsTime (pos h) (pos m) (negsuc s) t v = absurd (ground arith)
is_valid-IsTime (pos h) (pos m) (pos s) (negsuc t) v = absurd (ground arith)

pub IsTime-is_valid :
    (h m s t : ℕ)
    → h < 24
    → m < 60
    → s ≤ 60
    → t < ticks_per_second
    → is_valid (pos h) (pos m) (pos s) (pos t) ≡ true
unfolding is_valid
IsTime-is_valid h m s t hh hm hs ht = ground arith

pub to_ticks-pos :
    (h m s t : ℕ)
    → h < 24
    → m < 60
    → s ≤ 60
    → t < ticks_per_second
    → to_ticks (pos h) (pos m) (pos s) (pos t)
      ≡ pos (t + s * ticks_per_second + m * ticks_per_minute + h * ticks_per_hour)
unfolding to_ticks ◌+ℤ◌ ◌*ℤ◌
to_ticks-pos h m s t hh hm hs ht = rw (IsTime-is_valid h m s t hh hm hs ht) (ground arith)

pub set_from_ticks-pos :
    (self : TimeHmst) (n : ℕ)
    → n < ticks_per_day
    → set_from_ticks self (pos n)
      ≡ hmst
          (pos (n / ticks_per_hour))
          (pos (n / ticks_per_minute % 60))
          (pos (n / ticks_per_second % 60))
          (pos (n % ticks_per_second))
unfolding set_from_ticks tdiv tmod narrow
set_from_ticks-pos self n h = ground arith

set_from_ticks-fields :
    (self : TimeHmst) (h m s t : ℕ)
    → h < 24
    → m < 60
    → s < 60
    → t < ticks_per_second
    → set_from_ticks self (to_ticks (pos h) (pos m) (pos s) (pos t))
      ≡ hmst (pos h) (pos m) (pos s) (pos t)
set_from_ticks-fields self h m s t hh hm hs ht =
    let n : ℕ = t + s * ticks_per_second + m * ticks_per_minute + h * ticks_per_hour in
    rw (to_ticks-pos h m s t hh hm (omega arith) ht)
      (rw (set_from_ticks-pos self n (omega arith)) (ground arith))

+ℤ-pos : (a b : ℕ) → pos a +ℤ pos b ≡ pos (a + b)
unfolding ◌+ℤ◌
+ℤ-pos a b = ground arith

set_from_ticks-na :
    (self : TimeHmst) (n : ℕ) → ticks_per_day ≤ n → set_from_ticks self (pos n) ≡ set_to_na self
unfolding set_from_ticks
set_from_ticks-na self n h = ground arith

-- The first instant after the leap second of a minute; no time of day follows that of 23:59.
pub after_leap_second : TimeHmst → ℤ → ℤ → ℤ → TimeHmst
after_leap_second self hour minute tick =
    if ltb_ℤ minute (pos 59)
    then hmst hour (minute +ℤ pos 1) (pos 0) tick
    else if ltb_ℤ hour (pos 23)
    then hmst (hour +ℤ pos 1) (pos 0) (pos 0) tick
    else set_to_na self

-- A valid time that is no leap second is set again from its count of ticks.
pub set_from_ticks-to_ticks :
    (self : TimeHmst) (hour minute second tick : ℤ)
    → is_valid hour minute second tick ≡ true
    → second <ℤ pos 60
    → set_from_ticks self (to_ticks hour minute second tick) ≡ hmst hour minute second tick
set_from_ticks-to_ticks self hour minute second tick v h =
    let p : IsTime hour minute second tick = is_valid-IsTime hour minute second tick v in
    let below : p.s < 60 = ground (arith, p.second_eq) in
    cc (
      p.hour_eq,
      p.minute_eq,
      p.second_eq,
      p.tick_eq,
      set_from_ticks-fields self p.h p.m p.s p.t p.h_in p.m_in below p.t_in,
    )

-- Every count of ticks within a day is set to a valid time that counts as many.
pub to_ticks-set_from_ticks :
    (self : TimeHmst) (ticks : ℤ)
    → pos 0 ≤ℤ ticks
    → ticks <ℤ pos ticks_per_day
    → (is_valid
          (set_from_ticks self ticks).hour
          (set_from_ticks self ticks).minute
          (set_from_ticks self ticks).second
          (set_from_ticks self ticks).tick
        ≡ true)
      × (to_ticks
            (set_from_ticks self ticks).hour
            (set_from_ticks self ticks).minute
            (set_from_ticks self ticks).second
            (set_from_ticks self ticks).tick
          ≡ ticks)
to_ticks-set_from_ticks self (negsuc n) lo hi = absurd (omega arith)
to_ticks-set_from_ticks self (pos n) lo hi = rw (set_from_ticks-pos self n (omega arith)) (
  IsTime-is_valid (n / ticks_per_hour) (n / ticks_per_minute % 60) (n / ticks_per_second % 60)
      (n % ticks_per_second) (omega arith) (omega arith) (omega arith) (omega arith),
  to_ticks-pos (n / ticks_per_hour) (n / ticks_per_minute % 60) (n / ticks_per_second % 60)
        (n % ticks_per_second) (omega arith) (omega arith) (omega arith) (omega arith)
      ∙ ap pos (omega arith),
)

leap_second-fields :
    (self : TimeHmst) (h m t : ℕ)
    → h < 24
    → m < 60
    → t < ticks_per_second
    → set_from_ticks self (to_ticks (pos h) (pos m) (pos 60) (pos t))
      ≡ after_leap_second self (pos h) (pos m) (pos t)
unfolding after_leap_second
leap_second-fields self h m t hh hm ht =
    let n : ℕ = t + 60 * ticks_per_second + m * ticks_per_minute + h * ticks_per_hour in
    rw (to_ticks-pos h m 60 t hh hm (omega arith) ht)
      (ground (arith, set_from_ticks-pos self n, set_from_ticks-na self n, +ℤ-pos m 1, +ℤ-pos h 1))

-- The leap second of any minute but the last of the day is read back as the next minute's first
-- second, and that of the last minute as a time that is not available, though both are valid.
pub set_from_ticks_leap_second :
    (self : TimeHmst) (hour minute tick : ℤ)
    → is_valid hour minute (pos 60) tick ≡ true
    → set_from_ticks self (to_ticks hour minute (pos 60) tick)
      ≡ after_leap_second self hour minute tick
set_from_ticks_leap_second self hour minute tick v =
    let p : IsTime hour minute (pos 60) tick = is_valid-IsTime hour minute (pos 60) tick v in
    cc (p.hour_eq, p.minute_eq, p.tick_eq, leap_second-fields self p.h p.m p.t p.h_in p.m_in p.t_in)
