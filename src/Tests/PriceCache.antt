-- ===== src/Tests/PriceCache.antt =====
-- The price cache at concrete inputs: two goroutines that ask for the same price.
use soldex.Base.{ℕ, ◌^◌, ◌≡◌, refl, arith, ok}
use soldex.Base.Int.{pos}
use soldex.Math.Common.{div_floor, add_checked}
use soldex.Math.Dlmm.Pow.{pow}
use soldex.Math.Dlmm.Price.{
  compute_price_from_id, price_key, entry_hit, read_entry, fill_entry, empty_cache,
}
use soldex.Math.Dlmm.Price.Lookups.{
  System, Reachable, start, call, step, idle, asked, answered, set_phase, lookup_step, after_read,
  reachable-answers,
}

abbrev at_start : System
at_start = record { cache = empty_cache; phases = λ t. idle }

abbrev both_asked : System
both_asked =
    let one_asked = set_phase at_start 0 (at_start.cache, asked (pos 0) 10) in
    set_phase one_asked 1 (one_asked.cache, asked (pos 0) 10)

abbrev run : System → ℕ → System
run s t = set_phase s t (lookup_step s.cache (s.phases t))

-- Both read before either writes.
abbrev both_answered : System
both_answered = run (run (run (run both_asked 0) 1) 1) 0

abbrev both_answered-Reachable : Reachable both_answered
both_answered-Reachable =
    let asked-Reachable =
      call _ 1 (pos 0) 10 (call _ 0 (pos 0) 10 start (omega arith, omega arith))
        (omega arith, omega arith) in
    step _ 0 (step _ 1 (step _ 1 (step _ 0 asked-Reachable)))

answer : both_answered.phases 0 ≡ answered (pos 0) 10 (ok (2 ^ 64))
unfolding set_phase lookup_step after_read entry_hit read_entry price_key fill_entry
    compute_price_from_id div_floor add_checked pow
answer = refl

reachable-answers_example : ok (2 ^ 64) ≡ compute_price_from_id (pos 0) 10
reachable-answers_example =
    reachable-answers {s = both_answered} 0 (pos 0) 10 (ok (2 ^ 64)) both_answered-Reachable answer
