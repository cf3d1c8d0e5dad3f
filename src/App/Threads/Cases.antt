-- ===== src/App/Threads/Cases.antt =====
-- The cases of `read_request`, for a predicate on what a thread does next.
use chat_app_csd.Prelude.{String, inl, inr, Bool-cases, Option, none, some, is_empty}
use chat_app_csd.Value.{Value, dict}
use chat_app_csd.App.{Packages, Draw, answer, server_error}
use chat_app_csd.App.Post.{Posted, read_posted, named, error_body}
use chat_app_csd.App.Threads.{Pc, leaving, checking, read_request}

module _ (p : Packages) where
  -- A body that is no dict raises; a field that is missing is reported; else the id is checked.
  pub read_request_cases {ℓ} :
      (P : Pc p → Type ℓ) (body : Option Value) (draw : Draw)
      → P (leaving server_error draw.elapsed)
      → ((message : String) → P (leaving (answer 400 (error_body message)) draw.elapsed))
      → ((m : Posted) → P (checking m draw))
      → P (read_request p body draw)
  read_request_cases P none draw failed refused accepted = failed
  read_request_cases P (some (dict d)) draw failed refused accepted =
      let m = read_posted p.config.repr d in
      elim (Bool-cases (is_empty m.client_name)) [
        | inl k ↦ rw k (refused "client-name is required")
        | inr k1 ↦ elim (Bool-cases (is_empty m.msg_text)) [
          | inl k ↦ rw (k1, k) (refused "msg is required")
          | inr k2 ↦ rw (k1, k2) (accepted (named m draw))
        ]
      ]
  read_request_cases P (some Value.null) draw failed refused accepted = failed
  read_request_cases P (some _) draw failed refused accepted = failed
