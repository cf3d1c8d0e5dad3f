-- ===== src/Balancer/Selection.antt =====
-- `Backend` and `ServerPool.SelectBest` of load_balancer/main.go. The operations on float64 are a
-- record with the laws of their order; a score is no NaN.
pub mod Least
use chat_app_csd.Prelude.{
  ℕ, suc, ◌+◌, ◌≡◌, Bool, true, false, not, ◌&&◌, Option, none, some, List, [], ◌∷◌, ltb, leb,
  if◌then◌else◌,
}

pub record Scores : Type 1 where
  pub Score : Type 0
  pub lt : Score → Score → Bool
  pub le : Score → Score → Bool
  -- `math.MaxFloat64`
  pub max_float : Score
  -- `s + float64(n)*1.5`
  pub with_in_flight : Score → ℕ → Score
  pub lt_irrefl : (s : Score) → lt s s ≡ false
  pub lt_trans : (r s t : Score) → lt r s ≡ true → lt s t ≡ true → lt r t ≡ true

module _ (f : Scores) where
  -- `cooldown_until`: none for the zero time.
  pub record Server : Type 0 where
    pub alive : Bool
    pub consecutive_fail : ℕ
    pub cooldown_until : Option ℕ
    pub health_load_score : f.Score
    pub active_in_flight : ℕ

  -- Two seconds, in the unit of the clock
  abbrev pub cooldown : ℕ
  cooldown = 2000

  -- The health check's report
  unfoldable pub set_alive : Bool → ℕ → Server → Server
  set_alive true now s = record s { consecutive_fail = 0; alive = true; cooldown_until = none }
  set_alive false now s =
      let failed = record s { consecutive_fail = suc s.consecutive_fail } in
      if leb 3 (suc s.consecutive_fail)
      then record failed { alive = false; cooldown_until = some (now + cooldown) }
      else failed

  -- A request that failed, and one that was answered; nothing in the program calls these two.
  unfoldable pub record_failure : ℕ → Server → Server
  record_failure now s =
      let failed = record s { consecutive_fail = suc s.consecutive_fail } in
      if leb 5 (suc s.consecutive_fail)
      then record failed { alive = false; cooldown_until = some (now + cooldown) }
      else failed

  unfoldable pub record_success : Server → Server
  record_success s = record s { consecutive_fail = 0; alive = true; cooldown_until = none }

  abbrev cooled_down : ℕ → Option ℕ → Bool
  cooled_down now none = false
  cooled_down now (some t) = ltb t now

  unfoldable pub is_available : ℕ → Server → Bool
  is_available now s = if s.alive then true else cooled_down now s.cooldown_until

  pub effective_score : Server → f.Score
  effective_score s =
      if s.alive then f.with_in_flight s.health_load_score s.active_in_flight else f.max_float

  -- A candidate with its score, which is `math.MaxFloat64` as long as there is none.
  abbrev pub Candidate : Type 0
  Candidate = Option Server × f.Score

  pub better : Server → Candidate → Candidate
  unfolding effective_score
  better b (best, score) =
      if f.lt (effective_score b) score then (some b, effective_score b) else (best, score)

  module _ (threshold : f.Score) (now : ℕ) where
    -- One turn of the loop, on `best` and `overloaded`
    pub consider : Server → Candidate × Candidate → Candidate × Candidate
    unfolding better is_available effective_score
    consider b (best, overloaded) =
        if is_available now b
        then if f.le (effective_score b) threshold
          then (better b best, overloaded)
          else (best, better b overloaded)
        else (best, overloaded)

    pub consider_all : List Server → Candidate × Candidate → Candidate × Candidate
    unfolding consider
    consider_all [] found = found
    consider_all (b ∷ bs) found = consider_all bs (consider b found)

    abbrev pub first_of : Candidate × Candidate → Option Server → Option Server
    first_of ((some b, _), _) random = some b
    first_of ((none, _), (some b, _)) random = some b
    first_of ((none, _), (none, _)) random = random

    -- `random`: the backend that the random number picks, none if there are no backends
    unfoldable pub select_best : Option Server → List Server → Option Server
    unfolding consider_all
    select_best random servers =
        first_of (consider_all servers ((none, f.max_float), (none, f.max_float))) random
