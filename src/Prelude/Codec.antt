-- ===== src/Prelude/Codec.antt =====
-- `bytes.decode("utf-8", errors=…)`: a decoder that reads one byte at a time. What is ill formed
-- goes to the error handler, one maximal subpart at a time.
use Prim.Native.Nat.{ℕ, ◌+◌, ◌*◌, ◌-◌}
use mathlib.Core.Path.{◌≡◌, refl}
use mathlib.Core.Bool.{◌&&◌}
use mathlib.Core.List.{List, [], ◌∷◌, ◌++◌, map}
use coffee_order_system.Prelude.Tests.{ltb, leb, nat_eq, ◌==◌, if◌then◌else◌}
use coffee_order_system.Prelude.Texts.{Text}

-- `want` waits for `count` more bytes, the next one within `low` and `high`, after `pending`.
pub data Decoder : Type 0 where
  start : Decoder
  want : (count acc low high : ℕ) → (pending : List ℕ) → Decoder

module _ (handler : List ℕ → Text) where
  first_byte : ℕ → Text × Decoder
  first_byte b =
      if ltb b 0x80
      then (b ∷ [], start)
      else if ltb b 0xC2
      then (handler (b ∷ []), start)
      else if leb b 0xDF
      then ([], want 1 (b - 0xC0) 0x80 0xBF (b ∷ []))
      else if b == 0xE0
      then ([], want 2 0 0xA0 0xBF (b ∷ []))
      else if b == 0xED
      then ([], want 2 13 0x80 0x9F (b ∷ []))
      else if leb b 0xEF
      then ([], want 2 (b - 0xE0) 0x80 0xBF (b ∷ []))
      else if b == 0xF0
      then ([], want 3 0 0x90 0xBF (b ∷ []))
      else if leb b 0xF3
      then ([], want 3 (b - 0xF0) 0x80 0xBF (b ∷ []))
      else if b == 0xF4
      then ([], want 3 4 0x80 0x8F (b ∷ []))
      else (handler (b ∷ []), start)

  after_error : List ℕ → Text × Decoder → Text × Decoder
  after_error pending (out, d) = (handler pending ++ out, d)

  next_byte : Decoder → ℕ → Text × Decoder
  next_byte start b = first_byte b
  next_byte (want count acc low high pending) b =
      if leb low b && leb b high
      then (if count == 1
          then ((acc * 64 + (b - 0x80)) ∷ [], start)
          else ([], want (count - 1) (acc * 64 + (b - 0x80)) 0x80 0xBF (pending ++ (b ∷ []))))
      else after_error pending (first_byte b)

  rest_of : Decoder → Text
  rest_of start = []
  rest_of (want _ _ _ _ pending) = handler pending

  decode_from : Decoder → List ℕ → Text
  decode_from d [] = rest_of d
  decode_from d (b ∷ bytes) = let (out, d') = next_byte d b in out ++ decode_from d' bytes

-- `errors="surrogateescape"`
unfoldable pub decode_surrogateescape : List ℕ → Text
unfolding decode_from rest_of next_byte after_error first_byte
decode_surrogateescape = decode_from (map (λ b. 0xDC00 + b)) start

-- `errors="replace"`
unfoldable pub decode_replace : List ℕ → Text
unfolding decode_from rest_of next_byte after_error first_byte
decode_replace = decode_from (λ _. 0xFFFD ∷ []) start

-- "é", a lone lead byte, and a lone continuation byte.
decode_mixed :
    (decode_surrogateescape (0xC3 ∷ 0xA9 ∷ 0xE2 ∷ 0x82 ∷ b'a' ∷ 0xFF ∷ [])
      ≡ 0xE9 ∷ 0xDCE2 ∷ 0xDC82 ∷ b'a' ∷ 0xDCFF ∷ [])
    × (decode_replace (0xE2 ∷ 0x82 ∷ b'a' ∷ 0xFF ∷ []) ≡ 0xFFFD ∷ b'a' ∷ 0xFFFD ∷ [])
unfolding decode_surrogateescape decode_replace nat_eq
decode_mixed = (refl, refl)
