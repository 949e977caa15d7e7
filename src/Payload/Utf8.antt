-- ===== src/Payload/Utf8.antt =====
-- Go's unicode/utf8, as src/payload.go uses it.
use rclonewatch.Prelude.{
  ℕ, zero, suc, Bool, true, false, ◌&&◌, Option, none, some, Text, [], ◌∷◌, if◌then◌else◌, ◌==◌,
  leb, ltb,
}

-- The first byte of a UTF-8 sequence: how many bytes follow, and the range of the next one.
unfoldable pub lead_byte : ℕ → Option (ℕ × ℕ × ℕ)
lead_byte b =
    if ltb b 0x80
    then some (0, 0, 0)
    else (if ltb b 0xc2
        then none
        else (if ltb b 0xe0
            then some (1, 0x80, 0xbf)
            else (if ltb b 0xf0
                then some (2, if b == 0xe0 then 0xa0 else 0x80, if b == 0xed then 0x9f else 0xbf)
                else (if ltb b 0xf5
                    then some
                        (3, if b == 0xf0 then 0x90 else 0x80, if b == 0xf4 then 0x8f else 0xbf)
                    else none))))

unfoldable pub utf8_from : Option (ℕ × ℕ × ℕ) → Text → Bool
unfolding lead_byte
utf8_from none s = false
utf8_from (some (zero, lo, hi)) [] = true
utf8_from (some (zero, lo, hi)) (b ∷ s) = utf8_from (lead_byte b) s
utf8_from (some (suc n, lo, hi)) [] = false
utf8_from (some (suc n, lo, hi)) (b ∷ s) =
    leb lo b && leb b hi && utf8_from (some (n, 0x80, 0xbf)) s

-- `utf8.ValidString`
unfoldable pub valid_utf8 : Text → Bool
unfolding utf8_from
valid_utf8 = utf8_from (some (0, 0, 0))
