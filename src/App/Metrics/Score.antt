-- ===== src/App/Metrics/Score.antt =====
-- The load score of `/health`.
use chat_app_csd.Prelude.{
  ℕ, ◌*◌, ◌≤◌, String, ◌≡◌, refl, Option, none, some, List, [], ◌∷◌, arith, length,
}
use chat_app_csd.App.Metrics.Numbers.{
  Floats, IsPercent, round-IsWithin, literal-IsWithin, add-IsWithin, half-IsWithin, fifth-IsWithin,
}
use chat_app_csd.App.Metrics.{
  sampler_start, cpu_sampler, get_mem_percent, avg_response_ms, sum_times, load_score, min, health,
  health_body, health_figures,
}
use chat_app_csd.App.Metrics.Counters.{Rising}
use chat_app_csd.App.Metrics.Cpu.{cpu_sampler-IsPercent}
use chat_app_csd.App.Metrics.Memory.{IsReading, get_mem_percent-IsPercent}
use chat_app_csd.App.{Packages, App, answer, times_max}
use chat_app_csd.Db.{get_message_count}

module _ (f : Floats) where
  pub record Scored (cpu mem : f.Number) (active : ℕ) : Type 0 where
    pub score : f.Number
    pub ran : load_score f cpu mem active ≡ some score
    pub within : IsPercent f score

  scored :
      (cpu mem : f.Number) (active : ℕ) → IsPercent f cpu → IsPercent f mem → Scored cpu mem active
  unfolding load_score
  scored cpu mem active hc hm =
      let n = min (active * 2) 30 in
      let few : n ≤ 30 = ground arith in
      record {
        score = f.add (f.add (f.mul cpu f.half) (f.mul mem f.fifth)) (f.literal n);
        ran = rw (f.of_int_literal n (omega arith)) refl;
        within =
            add-IsWithin f 70 30 _ (f.literal n) (omega arith)
              (add-IsWithin f 50 20 _ _ (omega arith) (half-IsWithin f 50 cpu (omega arith) hc)
                (fifth-IsWithin f 20 mem (omega arith) hm))
              (literal-IsWithin f n 30 few);
      }

  averaged :
      (times : List ℕ)
      → length times ≤ times_max
      → (avg : f.Number) × (avg_response_ms f times ≡ some avg)
  unfolding avg_response_ms
  averaged [] h = (f.literal 0, refl)
  averaged (t ∷ times) h =
      let n = length (t ∷ times) in
      let (avg, quotient) =
        f.div_literal (sum_times f (f.literal 0) (t ∷ times)) n (omega arith) (omega (arith, h)) in
      (avg, rw (f.of_int_literal n (omega (arith, h))) quotient)

  -- Take any sequence of rounds of the sampler in which the counters of /proc/stat never go back, a
  -- memory reading that is a percentage, that fails, or that reports at least 1 kB and at most 2^53
  -- / 100 kB in all, of which no more is available, and a process with at most the 100 times that
  -- `track_response_time` keeps. Then `/health` answers with status 200, never with an exception,
  -- and the load score that it reports is at least 0.0 and at most 100.0, however many requests are
  -- active.
  pub health_bounds :
      (p : Packages) (reads : List (Option String)) (psutil : Option f.Number)
      (lines : Option (List String)) (app : App p)
      → Rising none reads
      → IsReading f psutil lines
      → length app.response_times ≤ times_max
      → let s = cpu_sampler f reads (sampler_start f) in
        (avg : f.Number) × (score : f.Number) × (health f p s psutil lines app
          ≡ answer 200 (
              health_body f s.cached
                (get_mem_percent f psutil lines)
                app.active_requests
                avg
                (get_message_count app.db)
                score))
        × IsPercent f (f.round 2 score)
  unfolding health
  health_bounds p reads psutil lines app rising reading few =
      let s = cpu_sampler f reads (sampler_start f) in
      let (avg, averages) = averaged app.response_times few in
      let u =
        scored s.cached (get_mem_percent f psutil lines) app.active_requests
          (cpu_sampler-IsPercent f reads rising)
          (get_mem_percent-IsPercent f psutil lines reading) in
      (
        avg,
        u.score,
        rw (averages, health_figures) (rw u.ran refl),
        round-IsWithin f 2 100 u.score (omega arith) u.within,
      )
