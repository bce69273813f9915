-- ===== src/Contracts/Ids.antt =====
-- packages/contracts/src/ids.ts: identifiers that sort by the time at which they are made. The
-- random bytes are the platform's.
pub mod Order
pub mod Tests
use doc_eng_demo.Prelude.{ℕ, zero, suc, ◌/◌, ◌%◌, String, List, [], ◌∷◌, ◌++◌, map, codes}
use doc_eng_demo.Contracts.Records.{Text}

-- Crockford's base 32 in lower case.
abbrev pub encoding : Text
encoding = codes "0123456789abcdefghjkmnpqrstvwxyz"

abbrev pub get_code : Text → ℕ → ℕ
get_code [] n = 0
get_code (c ∷ cs) zero = c
get_code (c ∷ cs) (suc n) = get_code cs n

-- The rounds of the loop that are left: each puts a digit before the text.
pub encode_rounds : ℕ → ℕ → Text → Text
encode_rounds zero time out = out
encode_rounds (suc i) time out = encode_rounds i (time / 32) (get_code encoding (time % 32) ∷ out)

unfoldable pub encode_time : ℕ → Text
unfolding encode_rounds
encode_time time = encode_rounds 10 time []

-- `bytes` are the sixteen of `crypto.getRandomValues`.
unfoldable pub encode_random : List ℕ → Text
encode_random bytes = map (λ b. get_code encoding (b % 32)) bytes

unfoldable pub ulid : ℕ → List ℕ → Text
ulid now bytes = encode_time now ++ encode_random bytes

unfoldable pub new_id : Text → ℕ → List ℕ → Text
unfolding ulid
new_id prefix now bytes = prefix ++ b'_' ∷ ulid now bytes
