-- ===== src/App/Metrics.antt =====
-- The system's figures in app.py: `_cpu_sampler` over /proc/stat, `_get_mem_percent` over
-- /proc/meminfo, and `/health` with its load score. Floats are a record of the operations that the
-- code uses, with what IEEE 754 says of them.
pub mod Numbers
pub mod Counters
pub mod Cpu
pub mod Memory
pub mod Score
use chat_app_csd.Prelude.{
  ◌>>=◌, rstrip_colon, ℕ, zero, suc, ◌+◌, ◌-◌, ◌*◌, ◌/◌, ◌%◌, ◌^◌, ◌≤◌, ◌<◌, String, count, ◌≡◌,
  refl, sym, ap, ◌∙◌, ◌≢◌, ◌↔◌, ◌⊎◌, inl, inr, Bool, true, false, not, ◌&&◌, ◌||◌, Option, none,
  some, List, [], ◌∷◌, ◌++◌, map, append-nil, append_assoc, map-append, arith, ◌==◌, eq_iff,
  eq_refl, length, take, drop, take-append-drop, All-append, length-take, length-drop, drop_all,
  length-append, All, contains, contains-append, Distinct, Bool-cases, Option-cases, if◌then◌else◌,
  ltb, leb, nat_eq, ℤ, pos, negsuc, is_empty, str_int, int_of_text, int_of_text-str_int,
  is_empty-str_int, f_string, strip, prefix, count-prefix-le, split, ◌+ℤ◌, ◌-ℤ◌, is_positive,
}
use chat_app_csd.App.{Packages, App, Response, answer, server_error}
use chat_app_csd.Db.{get_message_count}
use chat_app_csd.Value.{Value, int, dict, text, end, field, Float, float}
use chat_app_csd.App.Metrics.Numbers.{Floats}

-- `list(map(int, ws))`
pub ints : List String → Option (List ℤ)
ints [] = some []
ints (w ∷ ws) = do n ← int_of_text w; ns ← ints ws; some (n ∷ ns)

-- The numbers of a line of /proc/stat.
unfoldable pub counters : String → Option (List ℤ)
unfolding ints
counters line = ints (drop 1 (split line))

abbrev pub sum : List ℤ → ℤ
sum [] = pos 0
sum (n ∷ ns) = n +ℤ sum ns

abbrev pub get_elem? {ℓ} : {A : Type ℓ} → List A → ℕ → Option A
get_elem? [] n = none
get_elem? (x ∷ xs) zero = some x
get_elem? (x ∷ xs) (suc n) = get_elem? xs n

-- A file of /proc/meminfo's kind as a dict, the latest entry of a name in front.
abbrev pub Info : Type 0
Info = List (String × ℤ)

-- `info.get(name, default)`
abbrev pub info_get : String → ℤ → Info → ℤ
info_get name default [] = default
info_get name default ((k, n) ∷ info) = if k == name then n else info_get name default info

-- The body of the loop; `none` is a ValueError.
pub info_line : List String → Info → Option Info
info_line (name ∷ amount ∷ rest) info = do
  n ← int_of_text amount
  some ((rstrip_colon name, n) ∷ info)
info_line _ info = some info

pub meminfo : List String → Info → Option Info
unfolding info_line
meminfo [] info = some info
meminfo (line ∷ lines) info = do more ← info_line (split line) info; meminfo lines more

abbrev pub min : ℕ → ℕ → ℕ
min m n = if leb m n then m else n

module _ (f : Floats) where
  -- `_cached_cpu` and the variables of the sampler's loop.
  pub record Sampler : Type 0 where
    pub cached : f.Number
    pub prev_idle : ℤ
    pub prev_total : ℤ

  abbrev pub sampler_start : Sampler
  sampler_start = record { cached = f.literal 5; prev_idle = pos 0; prev_total = pos 0 }

  abbrev pub cpu_figure : f.Number → f.Number
  cpu_figure q = f.round 1 (f.mul (f.literal 100) (f.sub (f.literal 1) q))

  -- The quotient of the two differences, if there is one.
  abbrev pub refreshed : ℤ → ℤ → Option f.Number → Sampler → Sampler
  refreshed idle total none s = s
  refreshed idle total (some q) s = record {
    cached = cpu_figure q;
    prev_idle = idle;
    prev_total = total;
  }

  pub cpu_update : ℤ → ℤ → Sampler → Sampler
  cpu_update idle total s =
      let d_total = total -ℤ s.prev_total in
      if is_positive s.prev_total && is_positive d_total
      then refreshed idle total (f.div_int (idle -ℤ s.prev_idle) d_total) s
      else record s { prev_idle = idle; prev_total = total }

  abbrev pub cpu_sampled : List ℤ → Option ℤ → Sampler → Sampler
  cpu_sampled vals none s = s
  cpu_sampled vals (some idle) s = cpu_update idle (sum vals) s

  abbrev pub cpu_counted : Option (List ℤ) → Sampler → Sampler
  cpu_counted none s = s
  cpu_counted (some vals) s = cpu_sampled vals (get_elem? vals 3) s

  -- One round: the first line of /proc/stat, or `none` where the file cannot be read. Every
  -- exception leaves the variables as they were.
  pub cpu_round : Option String → Sampler → Sampler
  unfolding counters
  cpu_round none s = s
  cpu_round (some line) s = cpu_counted (counters line) s

  pub cpu_sampler : List (Option String) → Sampler → Sampler
  unfolding cpu_round
  cpu_sampler [] s = s
  cpu_sampler (read ∷ reads) s = cpu_sampler reads (cpu_round read s)

  abbrev pub get_cpu_percent : Sampler → f.Number
  get_cpu_percent s = s.cached

  -- `round(100.0 * (total - avail) / total, 1)`; `none` where it raises.
  unfoldable pub used_percent : ℤ → ℤ → Option f.Number
  used_percent total avail = do
    used ← f.of_int (total -ℤ avail)
    whole ← f.of_int total
    q ← f.div (f.mul (f.literal 100) used) whole
    some (f.round 1 q)

  abbrev pub info_percent : Info → Option f.Number
  info_percent info =
      let total = info_get "MemTotal" (pos 1) info in
      used_percent total (info_get "MemAvailable" total info)

  abbrev pub or_zero : Option f.Number → f.Number
  or_zero none = f.literal 0
  or_zero (some x) = x

  -- The figure of the package psutil, if that is installed, or else the lines of /proc/meminfo, if
  -- they can be read.
  pub get_mem_percent : Option f.Number → Option (List String) → f.Number
  unfolding meminfo used_percent
  get_mem_percent (some percent) lines = percent
  get_mem_percent none none = f.literal 0
  get_mem_percent none (some lines) = or_zero (do info ← meminfo lines []; info_percent info)

  -- `sum(times)`, from the left
  abbrev pub sum_times : f.Number → List ℕ → f.Number
  sum_times acc [] = acc
  sum_times acc (t ∷ times) = sum_times (f.add acc (f.milliseconds t)) times

  -- `(sum(times) / len(times)) if times else 0.0`; `none` where it raises.
  pub avg_response_ms : List ℕ → Option f.Number
  avg_response_ms [] = some (f.literal 0)
  avg_response_ms (t ∷ times) = do
    n ← f.of_int (pos (length (t ∷ times)))
    f.div (sum_times (f.literal 0) (t ∷ times)) n

  -- `(cpu_percent * 0.5) + (mem_percent * 0.2) + min(active * 2, 30)`; `none` where it raises.
  pub load_score : f.Number → f.Number → ℕ → Option f.Number
  load_score cpu mem active = do
    busy ← f.of_int (pos (min (active * 2) 30))
    some (f.add (f.add (f.mul cpu f.half) (f.mul mem f.fifth)) busy)

  abbrev pub health_body : f.Number → f.Number → ℕ → f.Number → ℕ → f.Number → Value
  health_body cpu mem active avg messages score = dict (
      field "status" (text "ok") (
        field "cpu_percent" (float (f.observed cpu)) (
          field "memory_percent" (float (f.observed mem)) (
            field "active_connections" (int (pos active)) (
              field "avg_response_ms" (float (f.observed (f.round 2 avg))) (
                field "message_count" (int (pos messages))
                  (field "load_score" (float (f.observed (f.round 2 score))) end)))))))

  -- With the two figures in hand; an exception is a status 500.
  pub health_figures : (p : Packages) → f.Number → f.Number → App p → Response
  unfolding avg_response_ms load_score get_message_count
  health_figures p cpu mem app = elim (avg_response_ms app.response_times) [
    | none ↦ server_error
    | some avg ↦ elim (load_score cpu mem app.active_requests) [
      | none ↦ server_error
      | some score ↦
          answer 200 (health_body cpu mem app.active_requests avg (get_message_count app.db) score)
    ]
  ]

  pub health : (p : Packages) → Sampler → Option f.Number → Option (List String) → App p → Response
  unfolding get_mem_percent health_figures
  health p s psutil lines app =
      health_figures p (get_cpu_percent s) (get_mem_percent psutil lines) app
