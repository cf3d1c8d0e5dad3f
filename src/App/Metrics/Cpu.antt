-- ===== src/App/Metrics/Cpu.antt =====
-- The CPU figure that `_cpu_sampler` keeps, over any number of rounds, failed ones included.
use chat_app_csd.Prelude.{
  ℕ, zero, suc, ◌+◌, ◌-◌, ◌≤◌, ◌<◌, String, ◌≡◌, refl, inl, inr, true, false, ◌&&◌, Option, none,
  some, List, [], ◌∷◌, map, arith, Bool-cases, ltb, ℤ, pos, is_positive, sub-pos,
}
use chat_app_csd.App.Metrics.Numbers.{
  Floats, IsPercent, IsWithin, round-IsWithin, mul-IsWithin, literal-IsWithin, sub-IsWithin,
}
use chat_app_csd.App.Metrics.{
  Sampler, sampler_start, cpu_figure, cpu_update, cpu_round, cpu_sampler, counters, get_elem?,
}
use chat_app_csd.App.Metrics.Counters.{
  sum_nat, IsFailed, GrowsFrom, Rising, sum-map, get_elem?-map, sum-LeAll, part-LeAll,
}

module _ (f : Floats) where
  -- What the variables of the sampler say of the counters that were read last.
  abbrev Known : Option (List ℕ) → Sampler f → Type 0
  Known none s = s.prev_total ≡ pos 0
  Known (some vals) s =
      (idle : ℕ) × (get_elem? vals 3 ≡ some idle)
      × (s.prev_idle ≡ pos idle)
      × (s.prev_total ≡ pos (sum_nat vals))

  cpu_figure-IsPercent : (q : f.Number) → IsWithin f 1 q → IsPercent f (cpu_figure f q)
  cpu_figure-IsPercent q h = round-IsWithin f 1 100 _ (omega arith) (
      mul-IsWithin f 100 1 _ _ (omega arith) (omega arith) (omega arith)
        (literal-IsWithin f 100 100 (omega arith)) (sub-IsWithin f 1 q (omega arith) h))

  -- The first round with counters has nothing to compare them with.
  first_update :
      (idle total : ℤ) (s : Sampler f)
      → s.prev_total ≡ pos 0
      → cpu_update f idle total s ≡ record s { prev_idle = idle; prev_total = total }
  unfolding cpu_update
  first_update idle total s h = rw h refl

  positive : (n : ℕ) → is_positive (pos n) ≡ ltb 0 n
  positive zero = refl
  positive (suc n) = ground arith

  pub record Updated (idle total : ℕ) (s : Sampler f) : Type 0 where
    pub cached : f.Number
    pub ran :
        cpu_update f (pos idle) (pos total) s
        ≡ record { cached = cached; prev_idle = pos idle; prev_total = pos total }
    pub percent : IsPercent f cached

  new_update :
      (idle total old before : ℕ) (s : Sampler f)
      → s.prev_idle ≡ pos old
      → s.prev_total ≡ pos before
      → 0 < before
      → before < total
      → old ≤ idle
      → idle + before ≤ old + total
      → Updated idle total s
  unfolding cpu_update
  new_update idle total old before s ei et some_before more le part =
      let (q, quotient, lo, hi) =
        f.div_int_le (idle - old) (total - before) (omega arith) (omega arith) in
      let due : is_positive (pos (total - before)) ≡ true =
        rw (positive (total - before)) (ground arith) in
      let due_now : is_positive (pos before) ≡ true = rw (positive before) (ground arith) in
      record {
        cached = cpu_figure f q;
        ran =
            rw (ei, et, sub-pos idle old le, sub-pos total before (omega arith))
              (rw (due_now, due, quotient) refl);
        percent = cpu_figure-IsPercent q (lo, hi);
      }

  kept_update :
      (idle total before : ℕ) (s : Sampler f)
      → s.prev_total ≡ pos before
      → before ≤ total
      → IsPercent f s.cached
      → ltb 0 before && ltb before total ≡ false
      → Updated idle total s
  unfolding cpu_update
  kept_update idle total before s e le percent not_due =
      let none_due : is_positive (pos before) && is_positive (pos (total - before)) ≡ false =
        rw (positive before, positive (total - before)) (ground (arith, not_due, le)) in
      record {
        cached = s.cached;
        ran = rw (e, sub-pos total before le) (rw none_due refl);
        percent = percent;
      }

  updated :
      (idle total old before : ℕ) (s : Sampler f)
      → s.prev_idle ≡ pos old
      → s.prev_total ≡ pos before
      → (old ≤ idle) × (idle + before ≤ old + total)
      → before ≤ total
      → IsPercent f s.cached
      → Updated idle total s
  updated idle total old before s ei et part le percent =
      elim (Bool-cases (ltb 0 before && ltb before total)) [
        | inl due ↦
            new_update idle total old before s ei et (ground (arith, due)) (ground (arith, due))
              part.0 part.1
        | inr not_due ↦ kept_update idle total before s et le percent not_due
      ]

  -- A round that reads counters.
  counted_round :
      (before : Option (List ℕ)) (idle : ℕ) (vals : List ℕ) (s : Sampler f)
      → get_elem? vals 3 ≡ some idle
      → GrowsFrom before vals
      → Known before s
      → IsPercent f s.cached
      → Updated idle (sum_nat vals) s
  counted_round none idle vals s at grows known percent = record {
    cached = s.cached;
    ran = first_update (pos idle) (pos (sum_nat vals)) s known;
    percent = percent;
  }
  counted_round (some xs) idle vals s at grows (old, at_old, ei, et) percent =
      updated idle (sum_nat vals) old (sum_nat xs) s ei et
        (part-LeAll xs vals 3 old idle grows at_old at) (sum-LeAll xs vals grows) percent

  failed_round : (read : Option String) (s : Sampler f) → IsFailed read → cpu_round f read s ≡ s
  unfolding cpu_round
  failed_round none s h = refl
  failed_round (some line) s (inl h) = rw h refl
  failed_round (some line) s (inr (vals, h, short)) = rw h (rw short refl)

  read_round :
      (line : String) (vals : List ℕ) (idle : ℕ) (s : Sampler f)
      → counters line ≡ some (map pos vals)
      → get_elem? vals 3 ≡ some idle
      → cpu_round f (some line) s ≡ cpu_update f (pos idle) (pos (sum_nat vals)) s
  unfolding cpu_round
  read_round line vals idle s h at =
      rw h (rw (get_elem?-map vals 3 idle at) (rw (sum-map vals) refl))

  sampler-IsPercent :
      (before : Option (List ℕ)) (reads : List (Option String)) (s : Sampler f)
      → Rising before reads
      → Known before s
      → IsPercent f s.cached
      → IsPercent f (cpu_sampler f reads s).cached
  unfolding cpu_sampler
  sampler-IsPercent before [] s rising known percent = percent
  sampler-IsPercent before (read ∷ reads) s (inl (failed, rising)) known percent =
      rw (failed_round read s failed, cpu_sampler)
        (sampler-IsPercent before reads s rising known percent)
  sampler-IsPercent before (none ∷ reads) s (inr (vals, h, grows, rising)) known percent = absurd h
  sampler-IsPercent before (some line ∷ reads) s (inr (vals, (idle, h, at), grows, rising)) known
        percent =
      let u = counted_round before idle vals s at grows known percent in
      let next : Sampler f = record {
        cached = u.cached;
        prev_idle = pos idle;
        prev_total = pos (sum_nat vals);
      } in
      rw (read_round line vals idle s h at, cpu_sampler)
        (rw (u.ran, cpu_sampler)
          (sampler-IsPercent (some vals) reads next rising (idle, at, refl, refl) u.percent))

  -- Take any sequence of rounds of the sampler from its start, in which the counters of /proc/stat
  -- never go back, rounds that cannot read them included: the CPU figure is at least 0.0 and at
  -- most 100.0 after it.
  pub cpu_sampler-IsPercent :
      (reads : List (Option String))
      → Rising none reads
      → IsPercent f (cpu_sampler f reads (sampler_start f)).cached
  cpu_sampler-IsPercent reads rising =
      sampler-IsPercent none reads (sampler_start f) rising refl
        (literal-IsWithin f 5 100 (omega arith))
