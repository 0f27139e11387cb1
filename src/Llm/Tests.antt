-- ===== src/Llm/Tests.antt =====
-- Two recorded requests of one lane, a stream that is cut, and a request that is open at the cutoff.
use minireplayer.Prelude.{
  ◌*◌, ◌≤◌, ◌<◌, ◌≡◌, refl, ◌⊎◌, none, some, List, [], ◌∷◌, ◌++◌, arith, string_eq, pair_eq,
}
use minireplayer.Json.{Value, int, str, obj, arr, nil, cons, end, field}
use minireplayer.Bytes.{Bytes, codes, strip, strip_left, strip_right, is_space, split_at}
use minireplayer.Llm.Sse.{next_event, feed, encode_sse, sse_payload}
use minireplayer.Llm.Sse.Chunks.{feed-done, feed_all, joined, feed_all-joined}
use minireplayer.Llm.Sse.Encoding.{payload-encode_sse}
use minireplayer.Llm.Shape.{bucket_bound, grow}
use minireplayer.Llm.Shape.Bucket.{bucket_bound-IsTight}

bucket_test : bucket_bound 100 ≡ 256
unfolding bucket_bound grow
bucket_test = refl

bucket_bound-IsTight_example :
    (100 ≤ bucket_bound 100) × ((bucket_bound 100 ≡ 16) ⊎ (bucket_bound 100 < 100 * 4))
bucket_bound-IsTight_example = bucket_bound-IsTight 100

-- a chunk that ends an event and starts another
feed-done_example : next_event (feed (codes "data: a") (10 ∷ 10 ∷ codes "data")).1 ≡ none
feed-done_example = feed-done (codes "data: a") (10 ∷ 10 ∷ codes "data")

abbrev pieces : List Bytes
pieces = (100 ∷ 58 ∷ 10 ∷ []) ∷ (10 ∷ 100 ∷ []) ∷ []

feed_all-joined_example : feed_all [] pieces ≡ feed [] (joined pieces)
unfolding next_event split_at
feed_all-joined_example = feed_all-joined [] pieces refl (ground arith)

payload-encode_sse_example :
    (event : Bytes) × (feed [] (encode_sse (97 ∷ []) ++ [])
      ≡ (event ∷ (feed [] []).0, (feed [] []).1))
    × (sse_payload event ≡ some (97 ∷ []))
unfolding strip strip_left strip_right is_space encode_sse
payload-encode_sse_example = payload-encode_sse (97 ∷ []) [] (ground arith) (ground arith) refl

abbrev raw : Value
raw = obj (field "token_ids" (arr (cons (int 7) nil)) (field "text" (str "hi") end))

-- an answer that names the call of another attempt
abbrev naming : Value
naming = obj (field "id" (str "call-1") (field "type" (str "function") end))
