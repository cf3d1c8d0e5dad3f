-- ===== src/Balancer/Selection/Least.antt =====
-- What `SelectBest` of load_balancer/main.go selects.
use chat_app_csd.Prelude.{
  ℕ, ◌≡◌, refl, Bool, true, false, not, ◌&&◌, inl, inr, ◌⊎◌, Bool-cases, Option, none, some, List,
  [], ◌∷◌, ◌++◌, append_assoc, append-nil, All, arith,
}
use chat_app_csd.Db.Stored.{All-snoc}
use chat_app_csd.Balancer.Selection.{
  Scores, Server, is_available, effective_score, Candidate, better, consider, consider_all,
  first_of, select_best,
}

module _ (f : Scores) where
  -- No server that passes the test has a score below.
  abbrev pub NoneBelow : (Server f → Bool) → f.Score → List (Server f) → Type 0
  NoneBelow test score = All (λ c. test c ≡ true → f.lt (effective_score f c) score ≡ false)

  -- The candidate is the best of the servers that pass the test, the first of several.
  record Least (test : Server f → Bool) (servers : List (Server f)) (found : Candidate f)
      : Type 0 where
    pub none_below : NoneBelow test found.1 servers
    pub origin :
        ((found.0 ≡ none) × (found.1 ≡ f.max_float))
        ⊎ ((b : Server f) × (found.0 ≡ some b)
            × (found.1 ≡ effective_score f b)
            × (test b ≡ true)
            × (f.lt (effective_score f b) f.max_float ≡ true))

  lower-NoneBelow :
      (test : Server f → Bool) (high low : f.Score) (servers : List (Server f))
      → f.lt low high ≡ true
      → NoneBelow test high servers
      → NoneBelow test low servers
  lower-NoneBelow test high low [] less h = tt
  lower-NoneBelow test high low (c ∷ cs) less h = (
    λ passes. ground (arith, h.0 passes, f.lt_trans (effective_score f c) low high, less),
    lower-NoneBelow test high low cs less h.1,
  )

  -- What is below the candidate's score is below the largest float.
  below_max :
      (test : Server f → Bool) (servers : List (Server f)) (found : Candidate f) (low : f.Score)
      → Least test servers found
      → f.lt low found.1 ≡ true
      → f.lt low f.max_float ≡ true
  below_max test servers found low h less = elim h.origin [
    | inl (nobody, largest) ↦ rw largest at less
    | inr (b, best, same, passes, below) ↦
        f.lt_trans low (effective_score f b) f.max_float (rw same at less) below
  ]

  better-Least :
      (test : Server f → Bool) (servers : List (Server f)) (b : Server f) (found : Candidate f)
      → test b ≡ true
      → Least test servers found
      → Least test (servers ++ b ∷ []) (better f b found)
  unfolding better
  better-Least test servers b (best, score) passes h =
      elim (Bool-cases (f.lt (effective_score f b) score)) [
        | inl less ↦ rw less (record {
          none_below =
              All-snoc _ servers b
                (lower-NoneBelow test score (effective_score f b) servers less h.none_below)
                (λ p. f.lt_irrefl (effective_score f b));
          origin = inr (
            b,
            refl,
            refl,
            passes,
            below_max test servers (best, score) (effective_score f b) h less,
          );
        })
        | inr not_less ↦ rw not_less (record {
          none_below = All-snoc _ servers b h.none_below (λ p. not_less);
          origin = h.origin;
        })
      ]

  other-Least :
      (test : Server f → Bool) (servers : List (Server f)) (b : Server f) (found : Candidate f)
      → test b ≡ false
      → Least test servers found
      → Least test (servers ++ b ∷ []) found
  other-Least test servers b found fails h = record {
    none_below = All-snoc _ servers b h.none_below (λ p. cc);
    origin = h.origin;
  }

  module _ (threshold : f.Score) (now : ℕ) where
    -- Available, and within the threshold or above it
    abbrev pub within : Server f → Bool
    within c = is_available f now c && f.le (effective_score f c) threshold

    abbrev pub above : Server f → Bool
    above c = is_available f now c && not (f.le (effective_score f c) threshold)

    consider-Least :
        (servers : List (Server f)) (b : Server f) (found : Candidate f × Candidate f)
        → Least within servers found.0
        → Least above servers found.1
        → let after = consider f threshold now b found in
          Least within (servers ++ b ∷ []) after.0 × Least above (servers ++ b ∷ []) after.1
    unfolding consider
    consider-Least servers b (best, over) h k = elim (Bool-cases (is_available f now b)) [
      | inl there ↦ elim (Bool-cases (f.le (effective_score f b) threshold)) [
        | inl low ↦
            rw (there, low)
              (
                better-Least within servers b best (ground (arith, there, low)) h,
                other-Least above servers b over (ground (arith, there, low)) k,
              )
        | inr high ↦
            rw (there, high)
              (
                other-Least within servers b best (ground (arith, there, high)) h,
                better-Least above servers b over (ground (arith, there, high)) k,
              )
      ]
      | inr gone ↦ rw gone (
        other-Least within servers b best (ground (arith, gone)) h,
        other-Least above servers b over (ground (arith, gone)) k,
      )
    ]

    consider_all-Least :
        (servers rest : List (Server f)) (found : Candidate f × Candidate f)
        → Least within servers found.0
        → Least above servers found.1
        → let after = consider_all f threshold now rest found in
          Least within (servers ++ rest) after.0 × Least above (servers ++ rest) after.1
    unfolding consider_all
    consider_all-Least servers [] found h k = rw append-nil (h, k)
    consider_all-Least servers (b ∷ rest) found h k =
        let (h', k') = consider-Least servers b found h k in
        rw append_assoc at
          (consider_all-Least (servers ++ b ∷ []) rest (consider f threshold now b found) h' k')

    -- A server with a score below the largest float is alive.
    alive_below : (b : Server f) → f.lt (effective_score f b) f.max_float ≡ true → b.alive ≡ true
    unfolding effective_score
    alive_below b below = ground (arith, below, f.lt_irrefl f.max_float)

    start-Least : (test : Server f → Bool) → Least test [] (none, f.max_float)
    start-Least test = record { none_below = tt; origin = inl (refl, refl) }

    -- What is selected: the best server within the threshold, else the best above it, else the
    -- random pick.
    abbrev pub Selected : Option (Server f) → List (Server f) → Option (Server f) → Type 0
    Selected random servers selected =
        ((b : Server f) × (selected ≡ some b)
          × (b.alive ≡ true)
          × (within b ≡ true)
          × NoneBelow within (effective_score f b) servers)
        ⊎ (((b : Server f) × (selected ≡ some b)
              × (b.alive ≡ true)
              × (above b ≡ true)
              × NoneBelow above (effective_score f b) servers
              × NoneBelow within f.max_float servers)
            ⊎ ((selected ≡ random)
                × NoneBelow within f.max_float servers
                × NoneBelow above f.max_float servers))

    first_of-Selected :
        (random : Option (Server f)) (servers : List (Server f)) (found : Candidate f × Candidate f)
        → Least within servers found.0
        → Least above servers found.1
        → Selected random servers (first_of f threshold now found random)
    first_of-Selected random servers found h k = elim h.origin [
      | inr (b, e, same, passes, below) ↦
          rw e (inl (b, refl, alive_below b below, passes, rw same at h.none_below))
      | inl (nobody, largest) ↦ elim k.origin [
        | inr (b, e, same, passes, below) ↦
            rw (nobody, e)
              (inr (
                inl (
                  b,
                  refl,
                  alive_below b below,
                  passes,
                  rw same at k.none_below,
                  rw largest at h.none_below,
                )))
        | inl (nobody', largest') ↦
            rw (nobody, nobody')
              (inr (inr (refl, rw largest at h.none_below, rw largest' at k.none_below)))
      ]
    ]

    -- `SelectBest`, whatever the servers, their order and the random pick. It selects an alive
    -- server with a score within the threshold, and no available server has a lower one; or, if no
    -- available server within the threshold has a score below the largest float, an alive server
    -- above it, and no available server above it has a lower score; or, if no available server has
    -- a score below the largest float, the random pick. So a server that is not alive is only ever
    -- picked at random, also when its cooldown has passed.
    pub select_best_lem :
        (random : Option (Server f)) (servers : List (Server f))
        → Selected random servers (select_best f threshold now random servers)
    unfolding select_best
    select_best_lem random servers =
        let start : Candidate f = (none, f.max_float) in
        let (h, k) =
          consider_all-Least [] servers (start, start) (start-Least within) (start-Least above) in
        first_of-Selected random servers (consider_all f threshold now servers (start, start)) h k
