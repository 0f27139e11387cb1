-- ===== src/Engine/Signing.antt =====
-- vllm_plugin/src/native_replay_vllm/protocol.py: what was signed is accepted.
use minireplayer.Prelude.{
  ℕ, String, ◌≡◌, refl, ap, true, some, List, [], ◌∷◌, ok, beq_refl, string_eq, ◌≤◌, ◌+◌, arith,
}
use minireplayer.Json.{Items, nil, cons, arr, int, str, nat?}
use minireplayer.Engine.{
  Crypto, numbers, token_sequence, front, request_id_pattern, sign_tokens, sign_sampler_window,
  validate_request, validate_sampler_window, check_window,
}

-- a token sequence as it is sent
unfoldable pub items_of : List ℕ → Items
items_of [] = nil
items_of (t ∷ ts) = cons (int t) (items_of ts)

numbers-items_of : (ts : List ℕ) → numbers (items_of ts) ≡ some ts
unfolding numbers items_of nat?
numbers-items_of [] = refl
numbers-items_of (t ∷ ts) = ap (front (some t)) (numbers-items_of ts)

-- A request identifier of the right form and a token sequence that is not empty, with the
-- signature that `sign_tokens` gives them, are accepted as they were sent.
pub validate_request-sign_tokens :
    (c : Crypto) (secret i : String) (t : ℕ) (ts : List ℕ)
    → c.fullmatch request_id_pattern i ≡ true
    → validate_request c secret
        (str i)
        (arr (items_of (t ∷ ts)))
        (str (sign_tokens c secret i (t ∷ ts)))
      ≡ ok (i, t ∷ ts)
unfolding validate_request token_sequence items_of numbers nat?
validate_request-sign_tokens c secret i t ts h =
    rw (h, numbers-items_of ts, beq_refl (sign_tokens c secret i (t ∷ ts))) refl

-- A sampler window that leaves room for the committed tokens, with the signature that
-- `sign_sampler_window` gives it, is accepted.
pub validate_sampler_window-sign :
    (c : Crypto) (secret i : String) (start count committed : ℕ)
    → start + committed ≤ count
    → validate_sampler_window c secret i
        (int start)
        (int count)
        committed
        (str (sign_sampler_window c secret i start count))
      ≡ ok (start, count)
unfolding validate_sampler_window check_window
validate_sampler_window-sign c secret i start count committed h =
    rw (beq_refl (sign_sampler_window c secret i start count)) (ground (arith, h))
