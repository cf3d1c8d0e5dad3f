-- ===== src/Tests/Metrics.antt =====
-- Examples for the system's figures.
use chat_app_csd.Prelude.{
  ℕ, String, ◌≡◌, refl, inl, inr, true, false, Option, none, some, List, [], ◌∷◌, map, arith, All,
  pos, int_of_text, is_space, split,
}
use chat_app_csd.Tests.{packages, app}
use chat_app_csd.App.Metrics.Numbers.{IsPercent}
use chat_app_csd.App.Metrics.{
  cpu_sampler, sampler_start, health, health_body, get_mem_percent, counters, meminfo,
}
use chat_app_csd.App.Metrics.Counters.{Rising}
use chat_app_csd.App.Metrics.Memory.{MemLine, print, listed, meminfo-print, IsNamed}
use chat_app_csd.App.Metrics.Score.{health_bounds}
use chat_app_csd.App.{answer}
use chat_app_csd.Db.{get_message_count}
use chat_app_csd.Tests.Floats.{floats}

-- Three rounds of the sampler, of which the second cannot read its file.
abbrev first_line : String
first_line = "cpu  100 0 50 800 5\n"

abbrev third_line : String
third_line = "cpu  110 0 80 850 6\n"

first_counters : counters first_line ≡ some (map pos (100 ∷ 0 ∷ 50 ∷ 800 ∷ 5 ∷ []))
unfolding counters split int_of_text
first_counters = refl

third_counters : counters third_line ≡ some (map pos (110 ∷ 0 ∷ 80 ∷ 850 ∷ 6 ∷ []))
unfolding counters split int_of_text
third_counters = refl

abbrev three_rounds : List (Option String)
three_rounds = some first_line ∷ none ∷ some third_line ∷ []

rounds_rise : Rising none three_rounds
rounds_rise = inr (
  100 ∷ 0 ∷ 50 ∷ 800 ∷ 5 ∷ [],
  (800, first_counters, refl),
  tt,
  inl (
    tt,
    inr (
      110 ∷ 0 ∷ 80 ∷ 850 ∷ 6 ∷ [],
      (850, third_counters, refl),
      (omega arith, (omega arith, (omega arith, (omega arith, (omega arith, tt))))),
      tt,
    ),
  ),
)

abbrev mem_lines : List MemLine
mem_lines =
    record { name = "MemTotal"; spaces = 7; amount = 16384; in_kb = true }
    ∷ record { name = "MemFree"; spaces = 8; amount = 100; in_kb = true }
    ∷ record { name = "MemAvailable"; spaces = 3; amount = 4096; in_kb = true }
    ∷ record { name = "HugePages_Total"; spaces = 0; amount = 0; in_kb = false }
    ∷ []

mem_lines-IsNamed : All IsNamed mem_lines
unfolding is_space
mem_lines-IsNamed = (
  (
    (refl, (refl, (refl, (refl, (refl, (refl, (refl, (refl, tt)))))))),
    (refl, (refl, (refl, (refl, (refl, (refl, (refl, (refl, tt)))))))),
  ),
  (
    (
      (refl, (refl, (refl, (refl, (refl, (refl, (refl, tt))))))),
      (refl, (refl, (refl, (refl, (refl, (refl, (refl, tt))))))),
    ),
    (
      (
        (
          refl,
          (
            refl,
            (refl, (refl, (refl, (refl, (refl, (refl, (refl, (refl, (refl, (refl, tt)))))))))),
          ),
        ),
        (
          refl,
          (
            refl,
            (refl, (refl, (refl, (refl, (refl, (refl, (refl, (refl, (refl, (refl, tt)))))))))),
          ),
        ),
      ),
      (
        (
          (
            refl,
            (
              refl,
              (
                refl,
                (
                  refl,
                  (
                    refl,
                    (
                      refl,
                      (refl, (refl, (refl, (refl, (refl, (refl, (refl, (refl, (refl, tt))))))))),
                    ),
                  ),
                ),
              ),
            ),
          ),
          (
            refl,
            (
              refl,
              (
                refl,
                (
                  refl,
                  (
                    refl,
                    (
                      refl,
                      (refl, (refl, (refl, (refl, (refl, (refl, (refl, (refl, (refl, tt))))))))),
                    ),
                  ),
                ),
              ),
            ),
          ),
        ),
        tt,
      ),
    ),
  ),
)

meminfo-print_example : meminfo (map print mem_lines) [] ≡ some (listed mem_lines [])
meminfo-print_example = meminfo-print mem_lines mem_lines-IsNamed

health_bounds_example :
    let s = cpu_sampler floats three_rounds (sampler_start floats) in
    let lines = some (map print mem_lines) in
    (avg : ℕ) × (score : ℕ) × (health floats packages s none lines app
      ≡ answer 200 (
          health_body floats s.cached
            (get_mem_percent floats none lines)
            0
            avg
            (get_message_count app.db)
            score))
    × IsPercent floats (floats.round 2 score)
health_bounds_example =
    health_bounds floats packages three_rounds none (some (map print mem_lines)) app rounds_rise
      (inr (
        listed mem_lines [],
        meminfo-print mem_lines mem_lines-IsNamed,
        (16384, 4096, refl, refl, omega arith, omega arith, omega arith),
      ))
      (omega arith)
