-- ===== src/Protocol/RequestId.antt =====
-- packages/protocol/src/request-id.ts.
use sinterdb.Prelude.{
  ℕ, zero, suc, ◌+◌, ◌-◌, ◌%◌, ◌≤◌, inl, inr, Bool-cases, ◌≡◌, ◌≢◌, ap, ◌∙◌, ok, ◌>>◌, require, leb,
  ◌==◌, if◌then◌else◌, ◌&&◌, arith,
}
use sinterdb.Protocol.Errors.{Throws, invalid_request_id, min_request_id, max_request_id}

-- The generator is its `current`.
unfoldable pub new_generator : ℕ → Throws ℕ
new_generator initial_value = do
  require (leb min_request_id initial_value && leb initial_value max_request_id) invalid_request_id
  ok initial_value

-- The id that is returned, and the generator after it.
unfoldable pub next_id : ℕ → ℕ × ℕ
next_id current = (current, if current == max_request_id then min_request_id else current + 1)

-- The id that the call behind `n` others returns.
unfoldable pub nth_id : ℕ → ℕ → ℕ
nth_id zero current = (next_id current).0
nth_id (suc n) current = nth_id n (next_id current).1

-- From a generator in range, the ids count up from its value and start again at 1 behind the largest.
pub nth_id_lem :
    (n current : ℕ)
    → min_request_id ≤ current
    → current ≤ max_request_id
    → nth_id n current ≡ (current - 1 + n) % max_request_id + 1
unfolding nth_id next_id
nth_id_lem zero current low high = omega arith
nth_id_lem (suc n) current low high = elim (Bool-cases (current == max_request_id)) [
  | inl last ↦
      let e : current ≡ max_request_id = ground arith in
      let r = nth_id_lem n min_request_id (omega arith) (omega arith) in rw last (omega arith)
  | inr other ↦
      let e : current ≢ max_request_id = ground arith in
      let r = nth_id_lem n (current + 1) (omega arith) (ground arith) in
      rw other (r ∙ ap (λ k. k % max_request_id + 1) (omega arith))
]
