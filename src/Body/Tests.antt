-- ===== src/Body/Tests.antt =====
-- A body of four bytes in two chunks, cut behind the third byte.
use hath_rust.Prelude.{◌≡◌, List, [], ◌∷◌, some, take, min, arith}
use hath_rust.Body.{Polled, pending, ended, frame, chunk, sent, polls, SizeHint, size_hint}
use hath_rust.Body.Truncates.{sent-polls}
use hath_rust.Body.Hints.{Allows, size_hint-Allows}

abbrev chunks : List Polled
chunks = frame (chunk (1 ∷ 2 ∷ [])) ∷ pending ∷ frame (chunk (3 ∷ 4 ∷ [])) ∷ ended ∷ []

sent-polls_example : sent (polls 3 chunks) ≡ take 3 (sent chunks)
sent-polls_example = sent-polls 3 chunks

abbrev exact : SizeHint
exact = record { lower = 4; upper = some 4 }

size_hint-Allows_example : (h : SizeHint) × (size_hint 3 exact ≡ some h) × Allows h (min 3 4)
size_hint-Allows_example =
    size_hint-Allows 3 4 exact (record { above = omega arith; below = omega arith })
