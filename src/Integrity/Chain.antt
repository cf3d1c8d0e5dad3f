-- ===== src/Integrity/Chain.antt =====
-- `verify_chain` of integrity.py against a definition of a linked chain.
use chat_app_csd.Prelude.{
  String, ◌≡◌, refl, sym, ◌↔◌, Bool, true, ◌&&◌, List, [], ◌∷◌, ◌++◌, arith, eq_iff,
}
use chat_app_csd.Integrity.{verify_from, verify_chain, hash_after}
use chat_app_csd.Value.{Value}
use chat_app_csd.Store.{Row}
use chat_app_csd.Db.{genesis}

-- The hash that the next row is linked to.
abbrev pub tip : String → List Row → String
tip prev [] = prev
tip prev (r ∷ rows) = tip r.record_hash rows

abbrev pub all_true : List Bool → Bool
all_true [] = true
all_true (b ∷ bs) = b && all_true bs

module _ (repr : Value → String) (sha256_hex : String → String) where
  -- The rows are linked, the first one behind `prev`.
  abbrev pub Linked : String → List Row → Type 0
  Linked prev [] = Unit
  Linked prev (r ∷ rows) =
      (r.record_hash ≡ hash_after repr sha256_hex prev r) × Linked r.record_hash rows

  accepts :
      (prev : String) (rows : List Row)
      → Linked prev rows
      → all_true (verify_from repr sha256_hex prev rows) ≡ true
  unfolding verify_from
  accepts prev [] h = refl
  accepts prev (r ∷ rows) h = ground (
    arith,
    (eq_iff (hash_after repr sha256_hex prev r) r.record_hash).1 (sym h.0),
    accepts r.record_hash rows h.1,
  )

  only-Linked :
      (prev : String) (rows : List Row)
      → all_true (verify_from repr sha256_hex prev rows) ≡ true
      → Linked prev rows
  unfolding verify_from
  only-Linked prev [] h = tt
  only-Linked prev (r ∷ rows) h = ground (
    arith,
    eq_iff (hash_after repr sha256_hex prev r) r.record_hash,
    only-Linked r.record_hash rows,
  )

  -- `verify_chain` returns True for every row exactly when the rows are linked from the genesis
  -- hash on.
  pub verify_chain_iff :
      (rows : List Row)
      → (all_true (verify_chain repr sha256_hex rows) ≡ true) ↔ Linked genesis rows
  unfolding verify_chain
  verify_chain_iff rows = (only-Linked genesis rows, accepts genesis rows)

  pub Linked-append :
      (prev : String) (rows more : List Row)
      → Linked prev rows
      → Linked (tip prev rows) more
      → Linked prev (rows ++ more)
  Linked-append prev [] more h k = k
  Linked-append prev (r ∷ rows) more h k = (h.0, Linked-append r.record_hash rows more h.1 k)
