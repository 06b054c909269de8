-- ===== src/Clock/Laws.antt =====
-- On the conversions and on machine_delay_until of fuzz/xnu/osfmk/fakes/clock.c.
use native.Mathlib.Nat.{mul-le-mul}
use sock_fuzzer.Common.{
  ℕ, zero, suc, none, some, lt→ltb, le→ltb-false, if◌then◌else◌, ◌==◌, ◌≡◌, refl, ◌<◌, ◌≤◌, ◌+◌,
  ◌-◌, ◌*◌, ◌/◌, ◌^◌, arith, subst,
}
use sock_fuzzer.Clock.{
  nsec_per_sec, clock_interval_to_absolutetime_interval, absolutetime_to_microtime, system_nanotime,
  delay_rounds, machine_delay_until,
}

microtime-whole : (abstime : ℕ) → absolutetime_to_microtime abstime ≡ (abstime, 0)
unfolding absolutetime_to_microtime
microtime-whole abstime = ground arith

nanotime-whole : (abstime : ℕ) → system_nanotime abstime ≡ (abstime, 0)
unfolding system_nanotime
nanotime-whole abstime = ground arith

-- An interval of 32 bits in units of 32 bits becomes its whole seconds; what is left of a second is
-- dropped. A time, on the other hand, is read as whole seconds with no fraction, in both forms, so that
-- these seconds come back unchanged.
pub clock_interval-seconds :
    (interval scale_factor : ℕ)
    → interval < 2 ^ 32
    → scale_factor < 2 ^ 32
    → let abstime = clock_interval_to_absolutetime_interval interval scale_factor in
      (abstime ≡ interval * scale_factor / nsec_per_sec)
      × (absolutetime_to_microtime abstime ≡ (abstime, 0))
      × (system_nanotime abstime ≡ (abstime, 0))
unfolding clock_interval_to_absolutetime_interval
clock_interval-seconds interval scale_factor small small' =
    let n : ℕ = interval * scale_factor in
    let fits : n ≤ (2 ^ 32 - 1) * (2 ^ 32 - 1) =
      mul-le-mul {n₁ = interval} {m₁ = scale_factor} {n₂ = 2 ^ 32 - 1} {m₂ = 2 ^ 32 - 1}
        (omega arith) (omega arith) in
    let abstime = clock_interval_to_absolutetime_interval interval scale_factor in
    (omega (arith, fits), microtime-whole abstime, nanotime-whole abstime)

-- If the time first reaches the deadline after some more yields, the delay ends after just these, given
-- more rounds than that.
pub delay_rounds-end :
    (now : ℕ → ℕ) (deadline k rounds i : ℕ)
    → ((j : ℕ) → i ≤ j → j < i + k → now j < deadline)
    → deadline ≤ now (i + k)
    → k < rounds
    → delay_rounds now deadline rounds i ≡ some (suc (i + k))
unfolding delay_rounds
delay_rounds-end now deadline k zero i early late room = absurd (omega arith)
delay_rounds-end now deadline zero (suc rounds) i early late room =
    let here : i + 0 ≡ i = omega arith in
    let over : deadline ≤ now i = subst (λ j. deadline ≤ now j) here late in
    rw (here, le→ltb-false (now i) deadline over) refl
delay_rounds-end now deadline (suc k) (suc rounds) i early late room =
    let onward : i + suc k ≡ suc i + k = omega arith in
    rw (lt→ltb (now i) deadline (early i (omega arith) (omega arith)), onward)
      (delay_rounds-end now deadline k rounds (suc i)
        (λ j low high. early j (omega arith) (omega arith))
        (subst (λ j. deadline ≤ now j) onward late) (omega arith))

late-none : (deadline rounds i : ℕ) → 0 < deadline → delay_rounds (λ i. 0) deadline rounds i ≡ none
unfolding delay_rounds
late-none deadline zero i later = refl
late-none deadline (suc rounds) i later = ground (arith, late-none deadline rounds (suc i) later)

-- With the time of this file, which stands at 0, a delay ends exactly if its deadline is 0, and then
-- after one yield; for any other deadline it yields without end.
pub machine_delay_until-end :
    (deadline rounds : ℕ)
    → machine_delay_until deadline (suc rounds) ≡ (if deadline == 0 then some 1 else none)
unfolding delay_rounds
machine_delay_until-end deadline rounds = ground (arith, late-none deadline rounds 1)
